-- ===== src/Main.antt =====
-- session_manager_main.cc, and what session_manager_service.cc sets up before it runs: its
-- constructor, `Initialize` and `Register`, with the constructors of session_manager_impl.cc and
-- device_policy_service.cc. The command line and its parsing are libbase's.
pub mod Options
use chromiumos_platform_logi.Prelude.{
  ℕ, suc, ◌+◌, ◌-◌, ◌%◌, ◌^◌, ◌≡◌, Bool, true, false, not, ◌&&◌, Option, none, some, List, [], ◌∷◌,
  is_empty, is_some, Text, codes, if◌then◌else◌, Outcome, done, died, ◌>>=◌,
}
use chromiumos_platform_logi.ChildJob
use chromiumos_platform_logi.ChildJob.{ChildJob}
use chromiumos_platform_logi.KeyGenerator
use chromiumos_platform_logi.Liveness
use chromiumos_platform_logi.NssUtil.{owner_key_file}
use chromiumos_platform_logi.PolicyKey
use chromiumos_platform_logi.PolicyStore
use chromiumos_platform_logi.SessionManager.{Env, Manager, disk_of}
use chromiumos_platform_logi.SessionManagerService
use chromiumos_platform_logi.SessionManagerService.{
  BrowserService, ExitCode, success, crash_while_screen_locked, child_exiting_too_fast,
  get_arg_list,
}
use chromiumos_platform_logi.SessionManagerService.Signals.{Process, setup_handlers}
use chromiumos_platform_logi.Daemon.{Daemon, Event}
use chromiumos_platform_logi.Daemon.Lifecycle.{Boot, run_service}

-- `int`, before a cast.
pub data ℤ : Type 0 where
  pos negsuc : ℕ → ℤ  -- n, and -(n + 1)

-- `static_cast<uid_t>`.
unfoldable pub uid_of_int : ℤ → ℕ
uid_of_int (pos n) = n % 2 ^ 32
uid_of_int (negsuc n) = (2 ^ 32 - 1 - n % 2 ^ 32) % 2 ^ 32

-- No time that has passed is less than a negative timeout, as none is less than 0.
unfoldable pub seconds_of_int : ℤ → ℕ
seconds_of_int (pos n) = n
seconds_of_int (negsuc n) = 0

-- The command line, and `StringToInt` and `StringToUint`, `none` where they fail.
pub record CommandLine : Type 0 where
  pub has_switch : Text → Bool
  pub get_switch_value : Text → Text
  pub args : List Text
  pub string_to_int : Text → Option ℤ
  pub string_to_uint : Text → Option ℕ

abbrev pub disable_chrome_restart_file : Text
disable_chrome_restart_file = codes "disable-chrome-restart-file"

abbrev pub disable_chrome_restart_file_default : Text
disable_chrome_restart_file_default = codes "/var/run/disable_chrome_restart"

abbrev pub uid_switch : Text
uid_switch = codes "uid"

abbrev pub kill_timeout_switch : Text
kill_timeout_switch = codes "kill-timeout"

abbrev pub kill_timeout_default : ℤ
kill_timeout_default = pos 3

abbrev pub enable_hang_detection : Text
enable_hang_detection = codes "enable-hang-detection"

abbrev pub hang_detection_interval_default : ℕ
hang_detection_interval_default = 60

abbrev pub multi_profile : Text
multi_profile = codes "multi-profiles"

abbrev pub help : Text
help = codes "help"

-- A switch that is absent or that does not parse leaves the default.
unfoldable pub switch_value : {A : Type 0} → CommandLine → (Text → Option A) → Text → Option A
switch_value cl parse name = if cl.has_switch name then parse (cl.get_switch_value name) else none

abbrev pub or_default : {A : Type 0} → Option A → A → A
or_default none a = a
or_default (some b) a = b

-- What `main` reads off the command line.
pub record Settings : Type 0 where
  pub uid : Option ℕ
  pub kill_timeout : ℤ
  pub enable_abort : Bool
  pub hang_interval : ℕ  -- in seconds
  pub browser_job : ChildJob
  pub restart_file : Text

unfoldable pub browser_job_for : List Text → Bool → Option ℕ → ChildJob
browser_job_for arg_list multi none = ChildJob.new arg_list multi
browser_job_for arg_list multi (some uid) =
    ChildJob.set_desired_uid (ChildJob.new arg_list multi) uid

abbrev pub uid_option : Option ℤ → Option ℕ
unfolding uid_of_int
uid_option none = none
uid_option (some i) = some (uid_of_int i)

unfoldable pub read_settings : CommandLine → Settings
unfolding switch_value browser_job_for uid_option
read_settings cl =
    let uid = uid_option (switch_value cl cl.string_to_int uid_switch) in
    let magic_chrome_file = cl.get_switch_value disable_chrome_restart_file in
    record {
      uid = uid;
      kill_timeout =
          or_default (switch_value cl cl.string_to_int kill_timeout_switch) kill_timeout_default;
      enable_abort = cl.has_switch enable_hang_detection;
      hang_interval =
          or_default (switch_value cl cl.string_to_uint enable_hang_detection)
            hang_detection_interval_default;
      browser_job = browser_job_for (get_arg_list cl.args) (cl.has_switch multi_profile) uid;
      restart_file =
          if is_empty magic_chrome_file
          then disable_chrome_restart_file_default
          else magic_chrome_file;
    }

-- `ShouldRunBrowser` with the file checker that `main` sets.
unfoldable pub should_run_browser : {Disk : Type 0} → Env Disk → Settings → Disk → Bool
should_run_browser env settings d = not (env.fs.path_exists d settings.restart_file)

abbrev pub flag_file_dir : Text
flag_file_dir = codes "/var/run/session_manager"

abbrev pub device_local_account_state_dir : Text
device_local_account_state_dir = codes "/var/lib/device_local_accounts"

abbrev pub policy_path : Text
policy_path = codes "/var/lib/whitelist/policy"

abbrev pub serial_recovery_flag_file : Text
serial_recovery_flag_file = codes "/var/lib/enterprise_serial_number_recovery"

-- The manager's constructor, over a device policy service as `Create` makes it; `cookie` is what
-- `SecureRandomString` gives.
unfoldable pub new_manager : {Disk : Type 0} → Text → Disk → Manager Disk
new_manager cookie d = record {
  session_started = false;
  session_stopping = false;
  screen_locked = false;
  cookie = cookie;
  chrome_testing_path = [];
  device_policy = record {
    state = record {
      disk = d;
      key = PolicyKey.new owner_key_file;
      store = PolicyStore.new policy_path;
      has_delegate = true;
      posted = [];
      replies = [];
      notices = [];
    };
    settings = none;
    mitigating = false;
    serial_recovery_flag_file = serial_recovery_flag_file;
    policy_file = policy_path;
  };
  device_local_account_dir = device_local_account_state_dir;
  policy_map = [];
  user_sessions = [];
  posted = [];
  effects = [];
}

-- The service's constructor, with the liveness checker that `Initialize` makes.
unfoldable pub new_service : Settings → ℕ → BrowserService
unfolding seconds_of_int
new_service settings own_uid = record {
  browser = settings.browser_job;
  browser_pid = none;
  browser_watcher = 0;
  generator = record { job = none; pid = none; watcher = 0 };
  exit_on_child_done = false;
  kill_timeout = seconds_of_int settings.kill_timeout;
  own_uid = own_uid;
  liveness_checker = Liveness.new settings.enable_abort;
  shutting_down = false;
  exit_code = success;
  actions = [];
}

-- What the system answers while the program starts up.
pub record StartUp : Type 0 where
  pub accepted : ℕ → Bool  -- sigaction(2)
  pub main_loop_made : Bool  -- for `Reset`
  pub registered : Bool  -- with D-Bus, by the service's base class
  pub match_added : Bool
  pub filter_added : Bool
  pub cookie : Text
  pub own_uid : ℕ

module _ {Disk : Type 0} (env : Env Disk) where
  -- A failure comes before anything is made; a missing folder is made first.
  unfoldable pub initialize : StartUp → Settings → Disk → Option (Daemon Disk)
  unfolding new_manager new_service
  initialize up settings d =
      let (d', made) = env.fs.create_directory d flag_file_dir in
      let daemon : Daemon Disk = record {
        manager = new_manager up.cookie d';
        service = new_service settings up.own_uid;
        key_gen = KeyGenerator.new;
        generator_uid = or_default settings.uid 0;
        outbox = [];
      } in
      if up.main_loop_made && made then some daemon else none

  unfoldable pub register : StartUp → Bool
  register up = up.registered && (up.match_added && up.filter_added)

  abbrev pub exit_number : ExitCode → ℕ
  exit_number success = 0
  exit_number crash_while_screen_locked = 1
  exit_number child_exiting_too_fast = 2

  -- A service that does not run is a fatal error.
  unfoldable pub exit_of : Daemon Disk × Bool → Outcome (Option (Daemon Disk) × ℕ)
  exit_of (d, true) = done (some d, exit_number d.service.exit_code)
  exit_of (d, false) = died

  unfoldable pub register_and_run :
      StartUp
      → Settings
      → Boot
      → List Event
      → (ℕ → Bool)
      → Option (Daemon Disk)
      → Outcome (Option (Daemon Disk) × ℕ)
  unfolding exit_of register should_run_browser
  register_and_run up settings boot events gone none = died
  register_and_run up settings boot events gone (some daemon) =
      let boot' = record boot {
        has_main_loop = up.main_loop_made;
        should_run = should_run_browser env settings (disk_of daemon.manager);
      } in
      if register up then (run_service env boot' events gone daemon >>= λ r. exit_of r) else died

  -- The daemon at its end, none where only the help was shown, and the exit code.
  unfoldable pub main :
      CommandLine
      → StartUp
      → Process
      → Boot
      → List Event
      → (ℕ → Bool)
      → Disk
      → Outcome (Option (Daemon Disk) × ℕ)
  unfolding read_settings initialize register_and_run
  main cl up process boot events gone d =
      let started = setup_handlers up.accepted process >>= λ _.
      register_and_run up (read_settings cl) boot events gone
        (initialize up (read_settings cl) d) in
      if cl.has_switch help then done (none, 0) else started
