-- ===== src/DbusCalls/Handles.antt =====
-- The handles of the liveness checker: the detailed checker follows the one of Liveness, and what the
-- D-Bus library has handed out is given back.
use chromiumos_platform_logi.Prelude.{
  ℕ, ◌≡◌, refl, ◌∙◌, append_nil, Bool, true, false, Option, none, some, List, [], ◌∷◌, ◌++◌, length,
  is_some, map, Outcome, done, if◌then◌else◌, arith,
}
use chromiumos_platform_logi.Liveness
use chromiumos_platform_logi.Liveness.{Checker}
use chromiumos_platform_logi.DbusCalls.{BusAction, pending_call, Reply}
use chromiumos_platform_logi.DbusCalls.Pinger.{
  Pinger, Event, started, stopped, timer, new, logged, put, start, step, run, destroy,
}
use chromiumos_platform_logi.DbusCalls.Tally.{
  tally, makes, unrefs, cancels, makes_message, unrefs_message,
}
use chromiumos_platform_logi.DbusCalls.Follows.{
  held, pinger, Inv, Inv-append, Leads, stop_lem, stop-Leads, check-Leads, answer_of,
}

-- `Start` schedules a check of a stopped checker.
start-Leads :
    (ping : Option ℕ) (log : List BusAction) (t : Checker)
    → Inv ping log t
    → Leads (start (pinger ping log t)) (Liveness.start t)
unfolding start put logged Liveness.start Liveness.stop tally
start-Leads ping log t i =
    let (log', e, j) = stop_lem ping log t i in
    rw e (
      none,
      log' ++ [],
      refl,
      Inv-append none none log' [] (Liveness.stop t) _ j refl (omega arith) (λ p. omega arith) refl,
    )

-- The connection to the bus stands: every ping that is sent gets a pending call.
abbrev pub AreConnected : List Event → Type 0
AreConnected [] = Unit
AreConnected (started ∷ es) = AreConnected es
AreConnected (stopped ∷ es) = AreConnected es
AreConnected (timer reply sending ∷ es) = ((p : ℕ) × (sending ≡ pending_call p)) × AreConnected es

abbrev pub seen : Event → Liveness.Event
seen started = Liveness.started
seen stopped = Liveness.stopped
seen (timer reply sending) = Liveness.timer (answer_of reply)

if-Leads :
    (b : Bool) (o o' : Outcome Pinger) (t t' : Checker)
    → Leads o t
    → Leads o' t'
    → Leads (if b then o else o') (if b then t else t')
if-Leads true o o' t t' l l' = l
if-Leads false o o' t t' l l' = l'

held-is_some : (ping : Option ℕ) → is_some (held ping) ≡ is_some ping
held-is_some none = refl
held-is_some (some p) = refl

timer-Leads :
    (reply : Option Reply) (p : ℕ) (ping : Option ℕ) (log : List BusAction) (t : Checker)
    → Inv ping log t
    → Leads
        (step (pinger ping log t) (timer reply (pending_call p)))
        (Liveness.step t (Liveness.timer (answer_of reply)))
unfolding step Liveness.step Liveness.is_running
timer-Leads reply p ping log t i =
    if-Leads t.pending _ _ _ _ (check-Leads reply p ping log t i) (ping, log, refl, i)

run-Leads :
    (es : List Event) (ping : Option ℕ) (log : List BusAction) (t : Checker)
    → AreConnected es
    → Inv ping log t
    → Leads (run (pinger ping log t) es) (Liveness.run t (map seen es))
unfolding run step Liveness.run Liveness.step
run-Leads [] ping log t c i = (ping, log, refl, i)
run-Leads (started ∷ es) ping log t c i =
    let (ping', log', e, j) = start-Leads ping log t i in
    rw e (run-Leads es ping' log' (Liveness.start t) c j)
run-Leads (stopped ∷ es) ping log t c i =
    let (ping', log', e, j) = stop-Leads ping log t i in
    rw e (run-Leads es ping' log' (Liveness.stop t) c j)
run-Leads (timer reply sending ∷ es) ping log t ((p, same), c) i =
    let (ping', log', e, j) = timer-Leads reply p ping log t i in
    rw same (rw e (run-Leads es ping' log' _ c j))

clean : (enable : Bool) → Inv none [] (Liveness.new enable)
unfolding tally Liveness.new
clean enable = record { same_out = refl; same_cancelled = refl; calls = λ p. refl; messages = refl }

-- While the connection stands, a new checker comes to the end of any events in the state of the
-- abstract one, with as many pings cancelled; and once it is destroyed, every pending call, every
-- message and every reply that the library has handed out was released as often as it was handed out.
pub run-destroy :
    (enable : Bool) (es : List Event)
    → AreConnected es
    → let t = Liveness.run (Liveness.new enable) (map seen es) in
      (s gone : Pinger) × (run (new enable) es ≡ done s)
      × (s.enable_aborting ≡ t.enable_aborting)
      × (s.pending ≡ t.pending)
      × (s.aborts ≡ t.aborts)
      × (is_some s.outstanding_liveness_ping ≡ is_some t.outstanding_ping)
      × (tally cancels s.log ≡ length t.cancelled)
      × (destroy s ≡ done gone)
      × ((p : ℕ) → tally (makes p) gone.log ≡ tally (unrefs p) gone.log)
      × (tally makes_message gone.log ≡ tally unrefs_message gone.log)
unfolding new Liveness.new destroy put logged tally
run-destroy enable es c =
    let (ping, log, e, i) = run-Leads es none [] (Liveness.new enable) c (clean enable) in
    let t = Liveness.run (Liveness.new enable) (map seen es) in
    let (log', e', j) = stop_lem ping log t i in
    (
      pinger ping log t,
      pinger none (log' ++ []) (Liveness.stop t),
      e,
      refl,
      refl,
      refl,
      held-is_some ping ∙ i.same_out,
      i.same_cancelled,
      rw e' refl,
      λ p. rw (append_nil log') (omega (arith, j.calls p)),
      rw (append_nil log') j.messages,
    )
