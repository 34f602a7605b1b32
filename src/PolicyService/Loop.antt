-- ===== src/PolicyService/Loop.antt =====
-- A policy service under load: calls of `Store` come in any order between turns of the message loop,
-- each of which runs the task that has waited longest.
pub mod Answers
pub mod Completion
pub mod Register
pub mod Durability
pub mod Examples
use chromiumos_platform_logi.Prelude.{
  ℕ, ◌+◌, ◌≡◌, Bool, true, List, [], ◌∷◌, Text, ◌==◌, if◌then◌else◌, Outcome, done, ◌>>=◌, Option,
  none, some, map,
}
use chromiumos_platform_logi.Platform.Files.{FileSystem}
use chromiumos_platform_logi.Platform.Crypto.{NssLibrary}
use chromiumos_platform_logi.Platform.Messages.{Codec}
use chromiumos_platform_logi.PolicyKey.{Beyond}
use chromiumos_platform_logi.PolicyService.{
  State, Task, persist_key, persist_policy, Reply, success, failure, store, run_task, has_flag,
  key_clobber, key_install_new,
}

-- A call carries its blob, the number of its completion and its flags.
pub data Event : Type 0 where
  call : Text → ℕ → ℕ → Event
  turn : Event

module _ {Disk : Type 0} (fs : FileSystem Disk) (c : Codec) where
  unfoldable pub turn_by : State Disk → List Task → Outcome (State Disk)
  turn_by s [] = done s
  turn_by s (t ∷ ts) = run_task fs c (record s { posted = ts }) t

module _ {Disk : Type 0} (fs : FileSystem Disk) (lib : NssLibrary) (beyond : Beyond)
    (c : Codec) where
  unfoldable pub step : State Disk → Event → Outcome (State Disk)
  step s (call blob completion flags) = store lib beyond c blob completion flags s >>= λ r. done r.0
  step s turn = turn_by fs c s s.posted

  unfoldable pub run : State Disk → List Event → Outcome (State Disk)
  run s [] = done s
  run s (e ∷ es) = step s e >>= λ s'. run s' es

-- How often the completion `k` stands in a place.
unfoldable pub one_for : ℕ → ℕ → ℕ
one_for k completion = if k == completion then 1 else 0

unfoldable pub replied : ℕ → List Reply → ℕ
replied k [] = 0
replied k (success completion ∷ rs) = one_for k completion + replied k rs
replied k (failure completion e ∷ rs) = one_for k completion + replied k rs

unfoldable pub pending : ℕ → List Task → ℕ
pending k [] = 0
pending k (persist_key ∷ ts) = pending k ts
pending k (persist_policy none ∷ ts) = pending k ts
pending k (persist_policy (some completion) ∷ ts) = one_for k completion + pending k ts

unfoldable pub called : ℕ → List Event → ℕ
called k [] = 0
called k (call blob completion flags ∷ es) = one_for k completion + called k es
called k (turn ∷ es) = called k es

-- No call allows clobbering without a first installation.
unfoldable pub IsSane : List Event → Type 0
IsSane [] = Unit
IsSane (call blob completion flags ∷ es) =
    (has_flag flags key_clobber ≡ true → has_flag flags key_install_new ≡ true) × IsSane es
IsSane (turn ∷ es) = IsSane es
