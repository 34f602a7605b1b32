-- ===== src/SessionManagerService.antt =====
-- session_manager_service.cc: the browser and the key generator as child processes. What the service
-- asks of the rest of the system is a list of actions, oldest first.
pub mod Examples
pub mod Exits
pub mod Cleanup
pub mod Signals
use chromiumos_platform_logi.Prelude.{
  ℕ, ◌≡◌, Bool, true, false, not, ◌&&◌, ◌||◌, Option, none, some, List, [], ◌∷◌, ◌++◌, is_some,
  Text, codes, text_eq, ltb, ◌==◌, if◌then◌else◌, Outcome, done, died, ◌>>=◌,
}
use chromiumos_platform_logi.ChildJob
use chromiumos_platform_logi.ChildJob.{ChildJob, cant_set_uid, cant_exec}
use chromiumos_platform_logi.KeyGenerator.{Spec}
use chromiumos_platform_logi.Liveness
use chromiumos_platform_logi.Liveness.{Checker}

abbrev pub first_exec_after_boot_flag : Text
first_exec_after_boot_flag = codes "--first-exec-after-boot"

abbrev pub kill_timeout_collect_chrome : ℕ
kill_timeout_collect_chrome = 60

abbrev pub sigabrt : ℕ
sigabrt = 6

abbrev pub sigkill : ℕ
sigkill = 9

abbrev pub sigterm : ℕ
sigterm = 15

pub data ExitCode : Type 0 where
  success crash_while_screen_locked child_exiting_too_fast : ExitCode

-- The argument of kill(2): a process, or with a minus the group of one.
pub data Target : Type 0 where
  process group : ℕ → Target

pub data Action : Type 0 where
  sent : Target → ℕ → ℕ → Action  -- the target, the user to send as, the signal
  watcher_removed : ℕ → Action
  chrome_exec_recorded stopping_announced impl_finalized quit_posted shutdown_posted : Action

pub record BrowserService : Type 0 where
  pub browser : ChildJob
  pub browser_pid : Option ℕ  -- none for -1
  pub browser_watcher : ℕ
  pub generator : Spec
  pub exit_on_child_done : Bool
  pub kill_timeout : ℕ
  pub own_uid : ℕ
  pub liveness_checker : Checker
  pub shutting_down : Bool
  pub exit_code : ExitCode
  pub actions : List Action

abbrev pub act : BrowserService → Action → BrowserService
act b a = record b { actions = b.actions ++ a ∷ [] }

-- What the system answers when the browser is run.
pub record Running : Type 0 where
  pub first_boot : Bool
  pub now : ℕ
  pub forked : Option ℕ
  pub watcher : ℕ

unfoldable pub get_kill_timeout : Bool → BrowserService → ℕ
get_kill_timeout collect_chrome_file_exists b =
    if collect_chrome_file_exists then kill_timeout_collect_chrome else b.kill_timeout

-- In the parent.
unfoldable pub run_child : Running → BrowserService → BrowserService
run_child r b = record b {
  browser = ChildJob.clear_one_time_arguments (ChildJob.record_time b.browser r.now);
  browser_pid = r.forked;
  browser_watcher = r.watcher;
}

unfoldable pub run_browser : Running → BrowserService → BrowserService
unfolding run_child
run_browser r b =
    let recorded = act b chrome_exec_recorded in
    let first = ChildJob.set_one_time_arguments b.browser (first_exec_after_boot_flag ∷ []) in
    let run =
      run_child r (if r.first_boot then record recorded { browser = first } else recorded) in
    record run { liveness_checker = Liveness.start run.liveness_checker }

-- The user a child is signalled as.
abbrev pub kill_uid : ChildJob → ℕ → ℕ
kill_uid j own = if j.is_desired_uid_set then j.desired_uid else own

-- `-child_pid`: with no child it is 1.
unfoldable pub group_of : Option ℕ → Target
group_of none = process 1
group_of (some pid) = group pid

unfoldable pub kill_child : ℕ → BrowserService → BrowserService
unfolding group_of
kill_child signal b = act b (sent (group_of b.browser_pid) (kill_uid b.browser b.own_uid) signal)

unfoldable pub abort_browser : ℕ → BrowserService → BrowserService
abort_browser signal b = kill_child signal b

unfoldable pub restart_browser_with_args : List Text → Bool → BrowserService → BrowserService
restart_browser_with_args args args_are_extra b =
    let killed = kill_child sigkill b in
    record killed {
      browser =
          if args_are_extra
          then ChildJob.set_extra_arguments killed.browser args
          else ChildJob.set_arguments killed.browser args;
    }

unfoldable pub set_browser_session_for_user : Text → Text → BrowserService → BrowserService
set_browser_session_for_user username userhash b = record b {
  browser = ChildJob.start_session b.browser username userhash;
}

unfoldable pub set_flags_for_user : List Text → BrowserService → BrowserService
set_flags_for_user flags b = record b { browser = ChildJob.set_extra_arguments b.browser flags }

abbrev pub is_positive : Option ℕ → Bool
is_positive none = false
is_positive (some pid) = ltb 0 pid

unfoldable pub deregister_child_watchers : BrowserService → BrowserService
deregister_child_watchers b =
    let first =
      if is_positive b.browser_pid
      then record (act b (watcher_removed b.browser_watcher)) { browser_watcher = 0 }
      else b in
    let g = b.generator in
    if is_positive g.pid
    then record (act first (watcher_removed g.watcher)) { generator = record g { watcher = 0 } }
    else first

unfoldable pub finalize : BrowserService → BrowserService
unfolding deregister_child_watchers
finalize b =
    let quiet = deregister_child_watchers b in
    let stopped = record quiet { liveness_checker = Liveness.stop quiet.liveness_checker } in
    act (act stopped stopping_announced) impl_finalized

unfoldable pub shutdown : BrowserService → BrowserService
unfolding finalize
shutdown b = act (finalize b) quit_posted

unfoldable pub set_exit_and_shutdown : ExitCode → BrowserService → BrowserService
unfolding shutdown
set_exit_and_shutdown code b = shutdown (record b { exit_code = code })

unfoldable pub allow_graceful_exit : BrowserService → BrowserService
allow_graceful_exit b =
    if b.exit_on_child_done then act (record b { shutting_down = true }) shutdown_posted else b

unfoldable pub is_browser : Option ℕ → BrowserService → Bool
is_browser none b = not (is_some b.browser_pid)
is_browser (some pid) b = elim b.browser_pid [ none ↦ false | some p ↦ pid == p ]

-- How a child ended.
pub data ExitStatus : Type 0 where
  exited signaled : ℕ → ExitStatus
  otherwise : ExitStatus

abbrev pub could_not_run : ExitStatus → Bool
could_not_run (exited code) = (code == cant_set_uid) || (code == cant_exec)
could_not_run (signaled _) = false
could_not_run otherwise = false

-- From the stop of the liveness checker on.
unfoldable pub restart_or_stop : Running → Bool → BrowserService → BrowserService
restart_or_stop r should_run b =
    let stopped = record b { liveness_checker = Liveness.stop b.liveness_checker } in
    if ChildJob.should_stop b.browser r.now
    then set_exit_and_shutdown child_exiting_too_fast stopped
    else if should_run
    then run_browser r stopped
    else allow_graceful_exit stopped

-- A failed CHECK ends the program.
unfoldable pub handle_browser_exit :
    Running → Bool → Bool → ℕ → ExitStatus → BrowserService → Outcome BrowserService
handle_browser_exit r screen_locked should_run pid status b =
    let swept = act b (sent (group pid) b.own_uid sigkill) in
    if could_not_run status
    then died
    else if b.shutting_down
    then done swept
    else if not (is_browser (some pid) b)
    then died
    else if screen_locked
    then done (set_exit_and_shutdown crash_while_screen_locked swept)
    else done (restart_or_stop r should_run swept)

unfoldable pub kill_and_remember : Option ChildJob → Option ℕ → ℕ → List Action × List (ℕ × ℕ)
kill_and_remember job none own_uid = ([], [])
kill_and_remember none (some pid) own_uid = ([], [])
kill_and_remember (some job) (some pid) own_uid =
    (sent (process pid) (kill_uid job own_uid) sigterm ∷ [], (pid, kill_uid job own_uid) ∷ [])

-- `gone` is `ChildIsGone` with the timeout.
unfoldable pub abort_remaining : (ℕ → Bool) → List (ℕ × ℕ) → List Action
abort_remaining gone [] = []
abort_remaining gone ((pid, uid) ∷ rest) =
    let later = abort_remaining gone rest in
    if gone pid then later else sent (process pid) uid sigabrt ∷ later

unfoldable pub cleanup_children : (ℕ → Bool) → BrowserService → BrowserService
unfolding kill_and_remember abort_remaining
cleanup_children gone b =
    let (terms, first) = kill_and_remember (some b.browser) b.browser_pid b.own_uid in
    let (more_terms, second) = kill_and_remember b.generator.job b.generator.pid b.own_uid in
    record b {
      actions = b.actions ++ (terms ++ (more_terms ++ abort_remaining gone (first ++ second)));
    }

abbrev pub separator : Text
separator = codes "--"

unfoldable pub get_arg_list : List Text → List Text
get_arg_list [] = []
get_arg_list (arg ∷ args) = if text_eq arg separator then args else arg ∷ args

pub data Filtered : Type 0 where
  handled not_yet_handled : Filtered

-- `none` for a sender, or a process id, that cannot be found.
unfoldable pub filter_message : Bool → Option ℕ → BrowserService → Filtered
filter_message is_restart_job sender_pid b = elim sender_pid [
  | none ↦ if is_restart_job then handled else not_yet_handled
  | some pid ↦ if is_restart_job && not (is_browser (some pid) b) then handled else not_yet_handled
]
