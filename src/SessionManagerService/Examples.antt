-- ===== src/SessionManagerService/Examples.antt =====
-- The browser exits once with the screen unlocked, and both children are cleaned up.
use chromiumos_platform_logi.Prelude.{
  ℕ, ◌+◌, ◌<◌, ◌≤◌, ◌≡◌, refl, true, false, Bool, some, [], ◌∷◌, ◌==◌, codes, done, if◌then◌else◌,
}
use chromiumos_platform_logi.ChildJob
use chromiumos_platform_logi.ChildJob.{ChildJob}
use chromiumos_platform_logi.Liveness
use chromiumos_platform_logi.Liveness.{is_running}
use chromiumos_platform_logi.SessionManagerService.{
  BrowserService, Running, ExitStatus, Action, exited, success, crash_while_screen_locked,
  child_exiting_too_fast, sent, group, chrome_exec_recorded, sigkill, handle_browser_exit,
  restart_or_stop, run_browser, could_not_run, cleanup_children, kill_uid,
}
use chromiumos_platform_logi.SessionManagerService.Exits.{
  quits, own_shutdowns, starts, Ends, Restarts, Rests, handle_browser_exit_lem,
}
use chromiumos_platform_logi.ChildJob.{restart_window_seconds}
use chromiumos_platform_logi.ChildJob.Restarts.{record_all}

abbrev chrome : ChildJob
unfolding ChildJob.new
chrome = ChildJob.new (codes "chrome" ∷ []) false

abbrev service : BrowserService
unfolding ChildJob.new Liveness.new
service = record {
  browser = chrome;
  browser_pid = some 40;
  browser_watcher = 1;
  generator = record { job = some chrome; pid = some 41; watcher = 2 };
  exit_on_child_done = false;
  kill_timeout = 3;
  own_uid = 0;
  liveness_checker = Liveness.new true;
  shutting_down = false;
  exit_code = success;
  actions = [];
}

abbrev again : Running
again = record { first_boot = false; now = 100; forked = some 50; watcher = 3 }

-- The browser was started at 1, 2, 3 and 30, and exits at 100.
abbrev crashed : BrowserService
crashed = record service {
  browser = record_all (ChildJob.new (codes "chrome" ∷ []) false) (1 ∷ 2 ∷ 3 ∷ 30 ∷ []);
}

abbrev restarted : BrowserService
unfolding ChildJob.new Liveness.new
restarted = run_browser again (record crashed {
  liveness_checker = Liveness.stop (Liveness.new true);
  actions = sent (group 40) 0 sigkill ∷ [];
})

browser_restarts : handle_browser_exit again false true 40 (exited 0) crashed ≡ done restarted
unfolding handle_browser_exit chromiumos_platform_logi.SessionManagerService.is_browser run_browser
    restart_or_stop ChildJob.should_stop record_all ChildJob.new ChildJob.record_time service
browser_restarts = refl

handle_browser_exit_example :
    (false ≡ true
      → (quits restarted.actions ≡ 0)
        × (own_shutdowns restarted.actions ≡ 0)
        × (starts restarted.actions ≡ 0))
    × (false ≡ false
        → (crashed.browser_pid ≡ some 40)
          × (false ≡ true → Ends crash_while_screen_locked restarted)
          × (false ≡ false
              → 100 < 1 + restart_window_seconds
              → Ends child_exiting_too_fast restarted)
          × (false ≡ false
              → 1 + restart_window_seconds ≤ 100
              → (true ≡ true → Restarts again crashed restarted)
                × (true ≡ false → Rests crashed restarted)))
unfolding service
handle_browser_exit_example =
    handle_browser_exit_lem again true 40 (exited 0) crashed restarted false (codes "chrome" ∷ [])
      false [] 1 2 3 30 refl refl browser_restarts

abbrev only_generator_gone : ℕ → Bool
only_generator_gone pid = if pid == 41 then true else false
