-- ===== src/Daemon/Wipe.antt =====
-- What a run of session_manager_service.cc leaves behind whose policy services do not start.
use chromiumos_platform_logi.Prelude.{◌≡◌, ◌≢◌, some, codes, [], Text}
use chromiumos_platform_logi.Platform.Files.{FileLaws}
use chromiumos_platform_logi.PolicyStore
use chromiumos_platform_logi.PolicyStore.{PolicyStore}
use chromiumos_platform_logi.PolicyService
use chromiumos_platform_logi.DevicePolicyService
use chromiumos_platform_logi.SessionManager.{Env, Manager, reset_file, disk_of}
use chromiumos_platform_logi.SessionManager.PolicyCalls
use chromiumos_platform_logi.SessionManagerService
use chromiumos_platform_logi.SessionManagerService.{
  BrowserService, Running, chrome_exec_recorded, watcher_removed, run_browser,
  deregister_child_watchers,
}
use chromiumos_platform_logi.Daemon.{Daemon}

abbrev pub wipe_order : Text
wipe_order = codes "fast safe"

module _ {Disk : Type 0} (env : Env Disk) (laws : FileLaws env.fs) where
  -- The order to wipe is on disk, and no service will write over it.
  abbrev IsOrdered : Manager Disk → Type 0
  IsOrdered m =
      (env.fs.read_file_to_string (disk_of m) reset_file ≡ some wipe_order)
      × (m.user_sessions ≡ [])
      × (reset_file ≢ m.device_policy.state.store.policy_path)
