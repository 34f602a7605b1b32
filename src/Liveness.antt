-- ===== src/Liveness.antt =====
-- liveness_checker_impl.h and liveness_checker_impl.cc: pings to the browser, and what follows if one
-- stays without an answer. Pings are numbered; the check's delayed task is pending or cancelled.
pub mod Hangs
pub mod Examples
use chromiumos_platform_logi.Prelude.{
  ℕ, suc, ◌+◌, ◌≡◌, Bool, true, false, not, ◌&&◌, Option, none, some, List, [], ◌∷◌, ◌++◌, is_some,
  if◌then◌else◌,
}

pub record Checker : Type 0 where
  pub enable_aborting : Bool
  pub outstanding_ping : Option ℕ
  pub pending : Bool  -- whether the next check is scheduled
  pub next_ping : ℕ
  pub cancelled : List ℕ  -- pings that were cancelled, latest first
  pub aborts : ℕ  -- SIGFPEs that the manager was asked for

unfoldable pub new : Bool → Checker
new enable = record {
  enable_aborting = enable;
  outstanding_ping = none;
  pending = false;
  next_ping = 0;
  cancelled = [];
  aborts = 0;
}

abbrev pub with_cancelled : Option ℕ → List ℕ → List ℕ
with_cancelled none ps = ps
with_cancelled (some p) ps = p ∷ ps

unfoldable pub stop : Checker → Checker
stop s = record s {
  pending = false;
  cancelled = with_cancelled s.outstanding_ping s.cancelled;
  outstanding_ping = none;
}

unfoldable pub start : Checker → Checker
unfolding stop
start s = record (stop s) { outstanding_ping = none; pending = true }

unfoldable pub is_running : Checker → Bool
is_running s = s.pending

unfoldable pub send_ping : Checker → Checker
send_ping s = record s {
  outstanding_ping = some s.next_ping;
  next_ping = suc s.next_ping;
  pending = true;
}

-- What has come of a ping by its check: a method return, an error, or nothing yet.
pub data Answer : Type 0 where
  returned failed missing : Answer

abbrev pub succeeded : Answer → Bool
succeeded returned = true
succeeded failed = false
succeeded missing = false

-- `CheckAsyncMethodSuccess` cancels a call that has no reply yet.
abbrev pub cancel_missing : Answer → Option ℕ → List ℕ → List ℕ
cancel_missing returned ping ps = ps
cancel_missing failed ping ps = ps
cancel_missing missing ping ps = with_cancelled ping ps

-- The task itself.
unfoldable pub check_and_send_liveness_ping : Answer → Checker → Checker
unfolding stop send_ping
check_and_send_liveness_ping answer s =
    let hang = is_some s.outstanding_ping && not (succeeded answer) in
    let noticed = record s { cancelled = cancel_missing answer s.outstanding_ping s.cancelled } in
    let aborted = stop (record noticed { aborts = suc s.aborts }) in
    if hang && s.enable_aborting then aborted else send_ping noticed

-- What the checker meets: the two calls, and the moment at which the scheduled task would run, which
-- a cancelled one does not.
pub data Event : Type 0 where
  started stopped : Event
  timer : Answer → Event

unfoldable pub step : Checker → Event → Checker
step s started = start s
step s stopped = stop s
step s (timer answer) = if is_running s then check_and_send_liveness_ping answer s else s

unfoldable pub run : Checker → List Event → Checker
run s [] = s
run s (e ∷ es) = run (step s e) es
