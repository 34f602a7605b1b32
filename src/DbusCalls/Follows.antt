-- ===== src/DbusCalls/Follows.antt =====
-- Each operation of the detailed liveness checker follows the one of Liveness, and keeps the balance
-- of what the D-Bus library hands out.
use chromiumos_platform_logi.Prelude.{
  ℕ, suc, ◌+◌, ◌≡◌, refl, sym, ap, inl, inr, Bool-cases, append_assoc, true, false, not, ◌&&◌,
  Option, none, some, List, [], ◌∷◌, ◌++◌, length, is_some, Outcome, done, arith,
}
use chromiumos_platform_logi.Liveness
use chromiumos_platform_logi.Liveness.{Checker}
use chromiumos_platform_logi.DbusCalls.{
  BusAction, message_made, message_unreffed, call_made, call_cancelled, call_unreffed, error_freed,
  ScopedDbusPendingCall, create, pending_call, Reply, method_return, error_message, other_type,
  unref, unref_and_clear, cancel_async_method_call, check_async_method_success,
  call_async_method_on_chromium,
}
use chromiumos_platform_logi.DbusCalls.Pinger.{
  Pinger, logged, put, stop, send_ping, find_hang, check_and_send_liveness_ping,
}
use chromiumos_platform_logi.DbusCalls.Tally.{
  tally, tally-append, makes, unrefs, cancels, makes_message, unrefs_message, holds,
}

abbrev pub held : Option ℕ → Option ScopedDbusPendingCall
held none = none
held (some p) = some (record { call = some p; skip_unref_for_test = false })

-- The detailed checker in the state of one of Liveness, with a pointer for the ping that is out.
abbrev pub pinger : Option ℕ → List BusAction → Checker → Pinger
pinger ping log t = record {
  enable_aborting = t.enable_aborting;
  outstanding_liveness_ping = held ping;
  pending = t.pending;
  aborts = t.aborts;
  log = log;
}

-- What is kept: as many pings were cancelled, and all that was handed out is given back, but for the
-- ping that is out.
pub record Inv (ping : Option ℕ) (log : List BusAction) (t : Checker) : Type 0 where
  pub same_out : is_some ping ≡ is_some t.outstanding_ping
  pub same_cancelled : tally cancels log ≡ length t.cancelled
  pub calls : (p : ℕ) → tally (makes p) log ≡ tally (unrefs p) log + holds p ping
  pub messages : tally makes_message log ≡ tally unrefs_message log

abbrev pub Leads : Outcome Pinger → Checker → Type 0
Leads o t =
    (ping : Option ℕ) × (log : List BusAction) × (o ≡ done (pinger ping log t)) × Inv ping log t

cancelled_length :
    (o : Option ℕ) (ps : List ℕ)
    → is_some o ≡ true
    → length (Liveness.with_cancelled o ps) ≡ suc (length ps)
cancelled_length none ps h = cc
cancelled_length (some q) ps h = refl

-- More of the log, in the next state.
pub Inv-append :
    (ping ping' : Option ℕ) (log more : List BusAction) (t t' : Checker)
    → Inv ping log t
    → is_some ping' ≡ is_some t'.outstanding_ping
    → length t'.cancelled ≡ length t.cancelled + tally cancels more
    → ((p : ℕ) → holds p ping + tally (makes p) more ≡ tally (unrefs p) more + holds p ping')
    → tally makes_message more ≡ tally unrefs_message more
    → Inv ping' (log ++ more) t'
Inv-append ping ping' log more t t' i out cancelled calls messages = record {
  same_out = out;
  same_cancelled = omega (arith, tally-append cancels log more, i.same_cancelled, cancelled);
  calls = λ p. omega (
    arith,
    tally-append (makes p) log more,
    tally-append (unrefs p) log more,
    i.calls p,
    calls p,
  );
  messages = omega (
    arith,
    tally-append makes_message log more,
    tally-append unrefs_message log more,
    i.messages,
    messages,
  );
}

pub stop_lem :
    (ping : Option ℕ) (log : List BusAction) (t : Checker)
    → Inv ping log t
    → (log' : List BusAction) × (stop (pinger ping log t)
        ≡ done (pinger none log' (Liveness.stop t)))
      × Inv none log' (Liveness.stop t)
unfolding stop put logged cancel_async_method_call unref_and_clear unref Liveness.stop tally
stop_lem none log t i = (
  log,
  refl,
  record {
    same_out = refl;
    same_cancelled = ground (arith, i.same_cancelled, i.same_out);
    calls = i.calls;
    messages = i.messages;
  },
)
stop_lem (some q) log t i = (
  log ++ (call_cancelled q ∷ [] ++ call_unreffed q ∷ []),
  ap (λ l. done (pinger none l (Liveness.stop t)))
      (append_assoc log (call_cancelled q ∷ []) (call_unreffed q ∷ [])),
  Inv-append (some q) none log _ t (Liveness.stop t) i refl
      (omega (arith, cancelled_length t.outstanding_ping t.cancelled (sym i.same_out)))
      (λ p. ground arith) refl,
)

pub stop-Leads :
    (ping : Option ℕ) (log : List BusAction) (t : Checker)
    → Inv ping log t
    → Leads (stop (pinger ping log t)) (Liveness.stop t)
stop-Leads ping log t i = let (log', e, j) = stop_lem ping log t i in (none, log', e, j)

abbrev pub sent : ℕ → List BusAction
sent p = message_made ∷ call_made p ∷ message_unreffed ∷ []

send_ping-Leads :
    (p : ℕ) (ping : Option ℕ) (log : List BusAction) (t : Checker)
    → Inv ping log t
    → Leads (send_ping (pending_call p) (pinger ping log t)) (Liveness.send_ping t)
unfolding send_ping put logged call_async_method_on_chromium create unref_and_clear unref
    Liveness.send_ping tally
send_ping-Leads p none log t i = (
  some p,
  log ++ (sent p ++ []),
  ap (λ l. done (pinger (some p) l (Liveness.send_ping t))) (append_assoc log (sent p) []),
  Inv-append none (some p) log _ t (Liveness.send_ping t) i refl (omega arith) (λ r. ground arith)
      refl,
)
send_ping-Leads p (some q) log t i = (
  some p,
  log ++ (sent p ++ call_unreffed q ∷ []),
  ap (λ l. done (pinger (some p) l (Liveness.send_ping t)))
      (append_assoc log (sent p) (call_unreffed q ∷ [])),
  Inv-append (some q) (some p) log _ t (Liveness.send_ping t) i refl (omega arith)
      (λ r. ground arith) refl,
)

-- What the abstract checker is told of a reply.
abbrev pub answer_of : Option Reply → Liveness.Answer
answer_of none = Liveness.missing
answer_of (some method_return) = Liveness.returned
answer_of (some error_message) = Liveness.failed
answer_of (some other_type) = Liveness.failed

abbrev pub noticed : Option Reply → Checker → Checker
noticed reply t = record t {
  cancelled = Liveness.cancel_missing (answer_of reply) t.outstanding_ping t.cancelled;
}

-- The log of the question whether a ping was answered.
abbrev pub asked : Option Reply → ℕ → List BusAction
asked none q = call_cancelled q ∷ []
asked (some method_return) q = message_made ∷ message_unreffed ∷ []
asked (some error_message) q = message_made ∷ error_freed ∷ message_unreffed ∷ []
asked (some other_type) q = message_made ∷ message_unreffed ∷ []

abbrev pub question : Option Reply → Option ℕ → List BusAction
question reply none = []
question reply (some q) = asked reply q

not_cancelled :
    (r : Option Reply) (o : Option ℕ) (ps : List ℕ)
    → is_some o ≡ false
    → length (Liveness.cancel_missing (answer_of r) o ps) ≡ length ps
not_cancelled none none ps h = refl
not_cancelled none (some q) ps h = cc
not_cancelled (some method_return) o ps h = refl
not_cancelled (some error_message) o ps h = refl
not_cancelled (some other_type) o ps h = refl

find_hang_lem :
    (reply : Option Reply) (ping : Option ℕ) (log : List BusAction) (t : Checker)
    → Inv ping log t
    → (log' : List BusAction) × (find_hang reply (pinger ping log t)
        ≡ done (
          is_some ping && not (Liveness.succeeded (answer_of reply)),
          pinger ping log' (noticed reply t),
        ))
      × Inv ping log' (noticed reply t)
unfolding find_hang logged check_async_method_success tally
find_hang_lem reply none log t i = (
  log,
  refl,
  record {
    same_out = i.same_out;
    same_cancelled = omega (
      arith,
      i.same_cancelled,
      not_cancelled reply t.outstanding_ping t.cancelled (sym i.same_out),
    );
    calls = i.calls;
    messages = i.messages;
  },
)
find_hang_lem none (some q) log t i = (
  log ++ asked none q,
  refl,
  Inv-append (some q) (some q) log _ t (noticed none t) i i.same_out
      (omega (arith, cancelled_length t.outstanding_ping t.cancelled (sym i.same_out)))
      (λ p. omega arith) refl,
)
find_hang_lem (some method_return) (some q) log t i = (
  log ++ asked (some method_return) q,
  refl,
  Inv-append (some q) (some q) log _ t t i i.same_out (omega arith) (λ p. omega arith) refl,
)
find_hang_lem (some error_message) (some q) log t i = (
  log ++ asked (some error_message) q,
  refl,
  Inv-append (some q) (some q) log _ t t i i.same_out (omega arith) (λ p. omega arith) refl,
)
find_hang_lem (some other_type) (some q) log t i = (
  log ++ asked (some other_type) q,
  refl,
  Inv-append (some q) (some q) log _ t t i i.same_out (omega arith) (λ p. omega arith) refl,
)

-- An abort is counted, which the handles do not depend on.
abbrev pub aborting : Checker → Checker
aborting t = record t { aborts = suc t.aborts }

aborting-Inv :
    (ping : Option ℕ) (log : List BusAction) (t : Checker)
    → Inv ping log t
    → Inv ping log (aborting t)
aborting-Inv ping log t i = record {
  same_out = i.same_out;
  same_cancelled = i.same_cancelled;
  calls = i.calls;
  messages = i.messages;
}

pub check-Leads :
    (reply : Option Reply) (p : ℕ) (ping : Option ℕ) (log : List BusAction) (t : Checker)
    → Inv ping log t
    → Leads
        (check_and_send_liveness_ping reply (pending_call p) (pinger ping log t))
        (Liveness.check_and_send_liveness_ping (answer_of reply) t)
unfolding check_and_send_liveness_ping Liveness.check_and_send_liveness_ping
check-Leads reply p ping log t i =
    let (log', e, j) = find_hang_lem reply ping log t i in
    let hang = is_some ping && not (Liveness.succeeded (answer_of reply)) in
    rw e (
      rw (sym i.same_out) (elim (Bool-cases (hang && t.enable_aborting)) [
        | inl h ↦
            rw h (stop-Leads ping log' (aborting (noticed reply t)) (aborting-Inv ping log' _ j))
        | inr h ↦ rw h (send_ping-Leads p ping log' (noticed reply t) j)
      ]))
