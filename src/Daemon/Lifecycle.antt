-- ===== src/Daemon/Lifecycle.antt =====
-- `Run` of session_manager_service.cc: from the policy services' start to the end of the main loop.
use chromiumos_platform_logi.DevicePolicyService.StartUpFlags.{get_start_up_flags}
use chromiumos_platform_logi.Prelude.{
  ℕ, Bool, true, false, List, Text, if◌then◌else◌, Outcome, done, ◌>>=◌,
}
use chromiumos_platform_logi.ChildJob
use chromiumos_platform_logi.DevicePolicyService
use chromiumos_platform_logi.SessionManager.{Env, announce_session_stopped}
use chromiumos_platform_logi.SessionManager.PolicyCalls
use chromiumos_platform_logi.SessionManagerService
use chromiumos_platform_logi.SessionManagerService.{
  BrowserService, Running, Action, chrome_exec_recorded, watcher_removed, run_browser,
  deregister_child_watchers,
}
use chromiumos_platform_logi.Daemon.{Daemon, Event, settle, quiet, run}

-- What the run meets before the loop: whether `Reset` made the loop, what the system answers to a
-- first browser, whether one is to run, and the names of files and switches that others define.
pub record Boot : Type 0 where
  pub has_main_loop : Bool
  pub running : Running
  pub should_run : Bool
  pub per_boot_flag_file : Text
  pub policy_switches_begin : Text
  pub policy_switches_end : Text

module _ {Disk : Type 0} (env : Env Disk) where
  -- The flags that were specified for the whole device.
  unfoldable pub with_start_up_flags : Boot → Daemon Disk → Daemon Disk
  with_start_up_flags boot d =
      let (p, settings) =
        DevicePolicyService.get_settings env.fs env.codec d.manager.device_policy in
      let flags = get_start_up_flags boot.policy_switches_begin boot.policy_switches_end settings in
      record d {
        manager = record (d.manager) { device_policy = p };
        service = record (d.service) {
          browser = ChildJob.set_extra_arguments d.service.browser flags;
        };
      }

  -- A policy key that cannot be read means a powerwash; the service then quits.
  unfoldable pub give_up : Daemon Disk → Daemon Disk
  unfolding settle
  give_up d =
      settle env (record d { manager = (PolicyCalls.start_device_wipe env d.manager).manager })
        (SessionManagerService.finalize (quiet env d))

  -- From the result of `Initialize` on.
  unfoldable pub after_initialize : Boot → Bool → Daemon Disk → Daemon Disk × Bool
  unfolding with_start_up_flags give_up settle
  after_initialize boot false d = (give_up d, false)
  after_initialize boot true d =
      let flagged = with_start_up_flags boot d in
      if boot.should_run
      then (settle env flagged (run_browser boot.running (quiet env flagged)), true)
      else (flagged, true)

  -- Up to the loop.
  unfoldable pub begin_run : Boot → Daemon Disk → Daemon Disk × Bool
  unfolding after_initialize
  begin_run boot d =
      let (m, ready) = PolicyCalls.initialize env boot.per_boot_flag_file d.manager in
      if boot.has_main_loop
      then after_initialize boot ready (record d { manager = m })
      else (d, false)

  -- `gone` is `ChildIsGone` with the timeout for killing.
  unfoldable pub end_run : (ℕ → Bool) → Daemon Disk → Daemon Disk
  unfolding settle
  end_run gone d =
      let cleaned = settle env d (SessionManagerService.cleanup_children gone (quiet env d)) in
      record cleaned { manager = announce_session_stopped cleaned.manager }

  unfoldable pub loop_and_end :
      List Event → (ℕ → Bool) → Daemon Disk × Bool → Outcome (Daemon Disk × Bool)
  unfolding end_run
  loop_and_end events gone (d, true) = run env events d >>= λ e. done (end_run gone e, true)
  loop_and_end events gone (d, false) = done (d, false)

  unfoldable pub run_service :
      Boot → List Event → (ℕ → Bool) → Daemon Disk → Outcome (Daemon Disk × Bool)
  unfolding begin_run loop_and_end
  run_service boot events gone d = loop_and_end events gone (begin_run boot d)
