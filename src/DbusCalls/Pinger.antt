-- ===== src/DbusCalls/Pinger.antt =====
-- liveness_checker_impl.cc again, down to the calls of the D-Bus library: what the checker does with
-- the pending call that it holds.
use chromiumos_platform_logi.Prelude.{
  ℕ, suc, Bool, true, false, not, ◌&&◌, Option, none, some, List, [], ◌∷◌, ◌++◌, if◌then◌else◌,
  Outcome, done, ◌>>=◌,
}
use chromiumos_platform_logi.DbusCalls.{
  BusAction, ScopedDbusPendingCall, unref_and_clear, Sending, Reply, cancel_async_method_call,
  check_async_method_success, call_async_method_on_chromium,
}

pub record Pinger : Type 0 where
  pub enable_aborting : Bool
  pub outstanding_liveness_ping : Option ScopedDbusPendingCall
  pub pending : Bool  -- whether the next check is scheduled
  pub aborts : ℕ  -- SIGFPEs that the manager was asked for
  pub log : List BusAction  -- in order

unfoldable pub new : Bool → Pinger
new enable = record {
  enable_aborting = enable;
  outstanding_liveness_ping = none;
  pending = false;
  aborts = 0;
  log = [];
}

unfoldable pub logged : Pinger → List BusAction → Pinger
logged s actions = record s { log = s.log ++ actions }

-- The scoped pointer takes a new object, and the old one is destroyed.
unfoldable pub put : Option ScopedDbusPendingCall → Pinger → Pinger
unfolding unref_and_clear logged
put ping s =
    let old : List BusAction = elim s.outstanding_liveness_ping [
      | none ↦ []
      | some p ↦ (unref_and_clear p).1
    ] in
    record (logged s old) { outstanding_liveness_ping = ping }

unfoldable pub stop : Pinger → Outcome Pinger
unfolding put logged
stop s =
    let cancelled = record s { pending = false } in
    elim s.outstanding_liveness_ping [
      | none ↦ done cancelled
      | some p ↦
          cancel_async_method_call p.call >>= λ actions. done (put none (logged cancelled actions))
    ]

unfoldable pub start : Pinger → Outcome Pinger
unfolding put
start s = stop s >>= λ t. done (record (put none t) { pending = true })

unfoldable pub send_ping : Sending → Pinger → Outcome Pinger
unfolding put logged
send_ping sending s = call_async_method_on_chromium sending >>= λ r.
    done (record (put (some r.0) (logged s r.1)) { pending = true })

-- Whether the browser hangs, with what was asked to find out.
unfoldable pub find_hang : Option Reply → Pinger → Outcome (Bool × Pinger)
unfolding logged
find_hang reply s = elim s.outstanding_liveness_ping [
  | none ↦ done (false, s)
  | some p ↦ check_async_method_success reply p.call >>= λ r. done (not r.0, logged s r.1)
]

unfoldable pub check_and_send_liveness_ping : Option Reply → Sending → Pinger → Outcome Pinger
unfolding find_hang
check_and_send_liveness_ping reply sending s = find_hang reply s >>= λ r.
    if r.0 && r.1.enable_aborting
    then stop (record (r.1) { aborts = suc r.1.aborts })
    else send_ping sending r.1

-- What the checker meets, with the library's answers.
pub data Event : Type 0 where
  started stopped : Event
  timer : Option Reply → Sending → Event

unfoldable pub step : Pinger → Event → Outcome Pinger
step s started = start s
step s stopped = stop s
step s (timer reply sending) =
    if s.pending then check_and_send_liveness_ping reply sending s else done s

unfoldable pub run : Pinger → List Event → Outcome Pinger
run s [] = done s
run s (e ∷ es) = step s e >>= λ t. run t es

-- The destructor: `Stop`, and then those of the members.
unfoldable pub destroy : Pinger → Outcome Pinger
unfolding stop put
destroy s = stop s >>= λ t. done (put none t)
