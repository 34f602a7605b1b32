-- ===== src/Daemon.antt =====
-- The parts of session_manager_service.cc put together: the browser's service, the manager behind it
-- and the key generator. What one asks of another is carried out when its call has returned: nothing
-- that a call does after such a request looks at what the request changes.
pub mod Lifecycle
pub mod Wipe
pub mod Requests
pub mod Owned
pub mod Ownership
pub mod Locked
pub mod Examples
use chromiumos_platform_logi.Prelude.{
  ℕ, ◌+◌, ◌≡◌, Bool, true, false, Option, none, some, List, [], ◌∷◌, ◌++◌, Text, ltb, if◌then◌else◌,
  Outcome, done, died, ◌>>=◌,
}
use chromiumos_platform_logi.KeyGenerator
use chromiumos_platform_logi.KeyGenerator.{KeyGenerator}
use chromiumos_platform_logi.Liveness
use chromiumos_platform_logi.SessionManager.{
  Env, Effect, Manager, set_browser_session, set_flags_for_user, restart_browser_with_args,
  run_key_generator, mitigate_key_loss, schedule_shutdown, disk_of, with_disk,
  announce_session_stopping_if_needed,
}
use chromiumos_platform_logi.SessionManager.PolicyCalls
use chromiumos_platform_logi.SessionManager.Calls.{Call, run_call, import_key}
use chromiumos_platform_logi.SessionManagerService
use chromiumos_platform_logi.SessionManagerService.{
  BrowserService, Action, chrome_exec_recorded, stopping_announced, impl_finalized, Running,
  ExitStatus, success,
}

abbrev pub sigfpe : ℕ
sigfpe = 8

pub record Daemon (Disk : Type 0) : Type 0 where
  pub manager : Manager Disk
  pub service : BrowserService
  pub key_gen : KeyGenerator
  pub generator_uid : ℕ  -- `set_uid_ ? uid_ : 0`
  pub outbox : List Effect  -- what went to the rest of the system, oldest first

-- How often a browser was started.
unfoldable pub execs : List Action → ℕ
execs [] = 0
execs (chrome_exec_recorded ∷ rest) = 1 + execs rest
execs (_ ∷ rest) = execs rest

-- What the system answers when the key generator forks.
pub record Fork : Type 0 where
  pub pid : Option ℕ
  pub watcher : ℕ

module _ {Disk : Type 0} (env : Env Disk) where
  -- The manager's part in an action of the service.
  unfoldable pub absorb : Action → Manager Disk → Manager Disk
  absorb stopping_announced m = announce_session_stopping_if_needed m
  absorb impl_finalized m = PolicyCalls.finalize env m
  absorb _ m = m

  unfoldable pub absorb_all : List Action → Manager Disk → Manager Disk
  unfolding absorb
  absorb_all [] m = m
  absorb_all (a ∷ rest) m = absorb_all rest (absorb a m)

  abbrev pub quiet : Daemon Disk → BrowserService
  quiet d = record (d.service) { actions = [] }

  -- The service after an operation that began with no action, and the manager's part in it.
  unfoldable pub settle : Daemon Disk → BrowserService → Daemon Disk
  unfolding absorb_all
  settle d b = record d {
    service = record b { actions = d.service.actions ++ b.actions };
    manager = absorb_all b.actions d.manager;
  }

  -- `RunKeyGenerator`, and `RegenMitigator::Mitigate`, which starts the same generator.
  unfoldable pub start_generator : Fork → Text → Daemon Disk → Daemon Disk
  start_generator fork username d =
      let s =
        KeyGenerator.start env.fs env.homes.user_path fork.pid fork.watcher username d.generator_uid
          d.key_gen d.service.generator (disk_of d.manager) in
      record d {
        key_gen = s.generator;
        service = record (d.service) { generator = s.spec };
        manager = with_disk d.manager s.disk;
      }

  unfoldable pub deliver : Fork → Effect → Daemon Disk → Daemon Disk
  unfolding start_generator settle
  deliver fork (set_browser_session user userhash) d =
      settle d (SessionManagerService.set_browser_session_for_user user userhash (quiet d))
  deliver fork (set_flags_for_user user flags) d =
      settle d (SessionManagerService.set_flags_for_user flags (quiet d))
  deliver fork (restart_browser_with_args args args_are_extra) d =
      settle d (SessionManagerService.restart_browser_with_args args args_are_extra (quiet d))
  deliver fork (run_key_generator username) d = start_generator fork username d
  deliver fork (mitigate_key_loss username) d = start_generator fork username d
  deliver fork schedule_shutdown d =
      settle d (SessionManagerService.set_exit_and_shutdown success (quiet d))
  deliver fork e d = record d { outbox = d.outbox ++ e ∷ [] }

  unfoldable pub deliver_all : Fork → List Effect → Daemon Disk → Daemon Disk
  unfolding deliver
  deliver_all fork [] d = d
  deliver_all fork (e ∷ es) d = deliver_all fork es (deliver fork e d)

  -- The manager with nothing left to ask; what it asked before went out.
  abbrev pub idle_manager : Daemon Disk → Manager Disk
  idle_manager d = record (d.manager) { effects = [] }

  abbrev pub after_call : Fork → Daemon Disk → Manager Disk → Daemon Disk
  after_call fork d m =
      deliver_all fork m.effects
        (record d { manager = record m { effects = [] }; outbox = d.outbox ++ d.manager.effects })

  unfoldable pub take_call : Fork → Call → Daemon Disk → Outcome (Daemon Disk)
  unfolding deliver_all
  take_call fork c d = run_call env c (idle_manager d) >>= λ m. done (after_call fork d m)

-- A hang found by the liveness checker ends the browser.
unfoldable pub liveness_check : Liveness.Answer → BrowserService → BrowserService
liveness_check answer b =
    let checker = Liveness.step b.liveness_checker (Liveness.timer answer) in
    let checked = record b { liveness_checker = checker } in
    if ltb b.liveness_checker.aborts checker.aborts
    then SessionManagerService.abort_browser sigfpe checked
    else checked

-- What happens to the daemon.
pub data Event : Type 0 where
  called : Fork → Call → Event
  browser_exited : Running → Bool → ℕ → ExitStatus → Event  -- and whether the browser is to run
  keygen_exited : Fork → KeyGenerator.ExitStatus → Event
  ping_due : Liveness.Answer → Event
  killed : Event

module _ {Disk : Type 0} (env : Env Disk) where
  -- `ProcessNewOwnerKey` for a key that was made.
  unfoldable pub process_new_key : Fork → Option (Text × Text) → Daemon Disk → Outcome (Daemon Disk)
  unfolding take_call
  process_new_key fork none d = done d
  process_new_key fork (some (username, key_file)) d =
      take_call env fork (import_key username key_file) d

  -- The exit of a child that is watched.
  unfoldable pub keygen_exit : Fork → KeyGenerator.ExitStatus → Daemon Disk → Outcome (Daemon Disk)
  unfolding process_new_key
  keygen_exit fork status d =
      let f = KeyGenerator.handle_keygen_exit status d.key_gen d.service.generator in
      process_new_key fork f.new_key
        (record d { key_gen = f.generator; service = record (d.service) { generator = f.spec } })

  unfoldable pub step : Event → Daemon Disk → Outcome (Daemon Disk)
  unfolding take_call keygen_exit liveness_check settle
  step (called fork c) d = take_call env fork c d
  step (browser_exited running should_run pid status) d =
      SessionManagerService.handle_browser_exit running d.manager.screen_locked should_run pid
        status (quiet env d)
      >>= λ b. done (settle env d b)
  step (keygen_exited fork status) d = elim d.service.generator.pid [
    | none ↦ done d
    | some _ ↦ keygen_exit fork status d
  ]
  step (ping_due answer) d = done (settle env d (liveness_check answer (quiet env d)))
  step killed d = done (settle env d (SessionManagerService.shutdown (quiet env d)))

  unfoldable pub run : List Event → Daemon Disk → Outcome (Daemon Disk)
  unfolding step
  run [] d = done d
  run (e ∷ es) d = step e d >>= λ d'. run es d'
