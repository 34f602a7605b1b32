-- ===== src/Liveness/Hangs.antt =====
-- When the browser is aborted.
use chromiumos_platform_logi.Prelude.{
  suc, ◌≡◌, ◌≢◌, refl, ◌∙◌, Bool, true, false, some, none, List, [], ◌∷◌, arith, is_some,
}
use chromiumos_platform_logi.Liveness.{
  Checker, Answer, returned, failed, missing, new, start, stop, is_running, send_ping,
  check_and_send_liveness_ping, Event, started, stopped, timer, step, run,
}

-- A ping is only out while the checker runs, and it was the last that was sent.
pub record Inv (s : Checker) : Type 0 where
  pub out_while_running : is_some s.outstanding_ping ≡ true → s.pending ≡ true

step-Inv : (s : Checker) (e : Event) → Inv s → Inv (step s e)
unfolding step start stop check_and_send_liveness_ping is_running
step-Inv s started v = ground arith
step-Inv s stopped v = ground arith
step-Inv s (timer answered) v = ground arith

-- Every ping was answered when its check came.
abbrev pub IsPrompt : List Event → Type 0
IsPrompt [] = Unit
IsPrompt (started ∷ es) = IsPrompt es
IsPrompt (stopped ∷ es) = IsPrompt es
IsPrompt (timer answer ∷ es) = (answer ≡ returned) × IsPrompt es

prompt_step :
    (s : Checker) (e : Event)
    → IsPrompt (e ∷ [])
    → ((step s e).aborts ≡ s.aborts) × ((step s e).enable_aborting ≡ s.enable_aborting)
unfolding step start stop check_and_send_liveness_ping is_running
prompt_step s started p = ground arith
prompt_step s stopped p = ground arith
prompt_step s (timer answered) p = ground arith

-- A browser that answers every ping by the next check is never aborted.
pub prompt_never_aborted :
    (s : Checker) (es : List Event) → IsPrompt es → (run s es).aborts ≡ s.aborts
unfolding run
prompt_never_aborted s [] p = refl
prompt_never_aborted s (started ∷ es) p =
    prompt_never_aborted (step s started) es p ∙ (prompt_step s started tt).0
prompt_never_aborted s (stopped ∷ es) p =
    prompt_never_aborted (step s stopped) es p ∙ (prompt_step s stopped tt).0
prompt_never_aborted s (timer a ∷ es) p =
    prompt_never_aborted (step s (timer a)) es p.1 ∙ (prompt_step s (timer a) (p.0, tt)).0

-- With aborting on, whenever a check of a running checker finds no unanswered ping, as after a start
-- or after any answered ping, the ping that it sends is watched: a browser that does not return that
-- one is aborted exactly once, by the next check, which stops the checker, so that no later timer
-- does anything.
pub silent_aborted :
    (s : Checker) (first second later : Answer)
    → s.enable_aborting ≡ true
    → is_running s ≡ true
    → (is_some s.outstanding_ping ≡ true → first ≡ returned)
    → second ≢ returned
    → let sent = run s (timer first ∷ []) in
      let t = run sent (timer second ∷ []) in
      (sent.outstanding_ping ≡ some s.next_ping)
      × (sent.aborts ≡ s.aborts)
      × (t.aborts ≡ suc s.aborts)
      × (is_running t ≡ false)
      × (t.outstanding_ping ≡ none)
      × (run t (timer later ∷ []) ≡ t)
unfolding run step stop check_and_send_liveness_ping send_ping is_running
silent_aborted s first returned later on runs answered silent = absurd (silent refl)
silent_aborted s first failed later on runs answered silent = ground arith
silent_aborted s first missing later on runs answered silent = ground arith

-- With aborting off, no event aborts the browser, and after a check another ping is out.
pub never_aborts_when_off :
    (s : Checker) (e : Event)
    → s.enable_aborting ≡ false
    → ((step s e).aborts ≡ s.aborts)
      × ((answer : Answer)
          → is_running s ≡ true
          → (step s (timer answer)).outstanding_ping ≡ some s.next_ping)
unfolding step start stop check_and_send_liveness_ping is_running
never_aborts_when_off s started off = (refl, λ a r. ground arith)
never_aborts_when_off s stopped off = (refl, λ a r. ground arith)
never_aborts_when_off s (timer b) off = (ground arith, λ a r. ground arith)

run-Inv : (s : Checker) (es : List Event) → Inv s → Inv (run s es)
unfolding run
run-Inv s [] v = v
run-Inv s (e ∷ es) v = run-Inv (step s e) es (step-Inv s e v)

-- Whatever happened to a new checker, a ping is out only while a check of it is scheduled.
pub run-new-Inv : (enable : Bool) (es : List Event) → Inv (run (new enable) es)
unfolding new
run-new-Inv enable es = run-Inv (new enable) es (record { out_while_running = λ h. cc })
