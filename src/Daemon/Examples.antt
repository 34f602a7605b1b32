-- ===== src/Daemon/Examples.antt =====
-- A first user on a device without a key: the generator runs for her. A locked screen, and a device
-- whose key cannot be read and which is to be wiped.
use chromiumos_platform_logi.Prelude.{
  ◌≡◌, refl, true, false, Bool, some, none, is_some, List, [], ◌∷◌, Text, codes, Outcome, done,
  died,
}
use chromiumos_platform_logi.Platform.SampleDisk.{SampleDisk, blank_disk, put}
use chromiumos_platform_logi.ChildJob
use chromiumos_platform_logi.KeyGenerator
use chromiumos_platform_logi.Liveness
use chromiumos_platform_logi.PolicyKey
use chromiumos_platform_logi.PolicyKey.{PolicyKey}
use chromiumos_platform_logi.PolicyStore
use chromiumos_platform_logi.SessionManager.{Env, Manager, UserSession, find}
use chromiumos_platform_logi.SessionManager.PolicyCalls
use chromiumos_platform_logi.SessionManager.Calls.{Call, lock}
use chromiumos_platform_logi.SessionManagerService
use chromiumos_platform_logi.SessionManagerService.{BrowserService, success, exited, Running}
use chromiumos_platform_logi.Daemon.{
  Daemon, Fork, Event, called, keygen_exited, killed, browser_exited, step, run, execs,
}
use chromiumos_platform_logi.Daemon.Requests.{Has}
use chromiumos_platform_logi.Daemon.Owned.{AreLucky, IsOwned}
use chromiumos_platform_logi.Daemon.Ownership.{new_key-Has}
use chromiumos_platform_logi.Daemon.Lifecycle.{Boot}
use chromiumos_platform_logi.Daemon.Locked.{step-locked-execs}
use chromiumos_platform_logi.Samples.{
  sample_lib, sample_env, sample_manager, sample_state, sample_device, owner_key,
}

abbrev ann : Text
ann = codes "ann@b.c"

abbrev session : UserSession
session = record {
  username = ann;
  userhash = codes "#ann";
  is_incognito = false;
  slot = 5;
  key = owner_key;
  store = PolicyStore.new (codes "/p");
  key_copy_path = [];
}

abbrev in_session : Manager SampleDisk
in_session = record sample_manager { session_started = true; user_sessions = (ann, session) ∷ [] }

abbrev service : BrowserService
unfolding ChildJob.new Liveness.new
service = record {
  browser = ChildJob.new (codes "chrome" ∷ []) false;
  browser_pid = some 40;
  browser_watcher = 1;
  generator = record { job = none; pid = some 41; watcher = 2 };
  exit_on_child_done = false;
  kill_timeout = 3;
  own_uid = 0;
  liveness_checker = Liveness.new true;
  shutting_down = false;
  exit_code = success;
  actions = [];
}

abbrev key_file : Text
key_file = codes "/user/ann@b.c/key.pub"

-- The generator runs for Ann, who has a session.
abbrev daemon : Daemon SampleDisk
unfolding service
daemon = record {
  manager = in_session;
  service = service;
  key_gen = record {
    generating = true;
    keygen_job = none;
    key_owner_username = ann;
    temporary_key_file = key_file;
  };
  generator_uid = 1000;
  outbox = [];
}

abbrev fork : Fork
fork = record { pid = some 42; watcher = 3 }

abbrev again : Running
again = record { first_boot = false; now = 100; forked = some 50; watcher = 4 }

abbrev landed : Outcome (Daemon SampleDisk) → Daemon SampleDisk
unfolding daemon
landed (done d) = d
landed died = daemon

abbrev is_done : Outcome (Daemon SampleDisk) → Bool
is_done (done d) = true
is_done died = false

lands : (o : Outcome (Daemon SampleDisk)) → is_done o ≡ true → o ≡ done (landed o)
unfolding landed
lands (done d) h = refl
lands died h = cc

abbrev evening : List Event
evening = browser_exited again true 40 (exited 0) ∷ called fork lock ∷ []

abbrev outcome : Outcome (Daemon SampleDisk)
unfolding daemon
outcome = run sample_env evening daemon

evening_ends : is_done outcome ≡ true
unfolding outcome run SessionManagerService.handle_browser_exit SessionManagerService.is_browser
    chromiumos_platform_logi.SessionManager.Calls.run_call
evening_ends = refl

generator_runs : is_some (landed outcome).service.generator.pid ≡ true
unfolding landed run SessionManagerService.handle_browser_exit SessionManagerService.is_browser
    chromiumos_platform_logi.SessionManager.Calls.run_call
    chromiumos_platform_logi.SessionManager.lock_screen SessionManagerService.restart_or_stop
    ChildJob.should_stop SessionManagerService.run_browser
generator_runs = refl

key_is_hers :
    (KeyGenerator.handle_keygen_exit
      (KeyGenerator.exited 0)
      (landed outcome).key_gen
      (landed outcome).service.generator).new_key
    ≡ some (ann, key_file)
unfolding KeyGenerator.handle_keygen_exit landed run SessionManagerService.handle_browser_exit
    SessionManagerService.is_browser chromiumos_platform_logi.SessionManager.Calls.run_call
    chromiumos_platform_logi.SessionManager.lock_screen SessionManagerService.restart_or_stop
    ChildJob.should_stop SessionManagerService.run_browser
key_is_hers = refl

are_lucky : AreLucky evening
unfolding AreLucky chromiumos_platform_logi.Daemon.Requests.Calls.IsLuckyCall
are_lucky = (tt, tt)

owned : IsOwned daemon
unfolding daemon find
owned h = refl

new_key-Has_example : Has ann (landed outcome).manager.user_sessions
unfolding run outcome
new_key-Has_example =
    new_key-Has sample_env evening daemon (landed outcome) (KeyGenerator.exited 0) ann key_file
      are_lucky owned (lands outcome evening_ends) generator_runs key_is_hers

abbrev behind_lock : Daemon SampleDisk
unfolding daemon
behind_lock = record daemon { manager = record in_session { screen_locked = true } }

abbrev crash : Outcome (Daemon SampleDisk)
unfolding behind_lock
crash = step sample_env (browser_exited again true 40 (exited 0)) behind_lock

crash_ends : is_done crash ≡ true
unfolding crash step SessionManagerService.handle_browser_exit SessionManagerService.is_browser
crash_ends = refl

step-locked-execs_example : execs (landed crash).service.actions ≡ execs behind_lock.service.actions
unfolding behind_lock
step-locked-execs_example =
    step-locked-execs sample_env (browser_exited again true 40 (exited 0)) behind_lock
      (landed crash) refl (lands crash crash_ends)

abbrev boot : Boot
boot = record {
  has_main_loop = true;
  running = again;
  should_run = true;
  per_boot_flag_file = codes "/boot_flag";
  policy_switches_begin = codes "policy-switches-begin";
  policy_switches_end = codes "policy-switches-end";
}

-- NSS takes nothing for a key.
abbrev strict_env : Env SampleDisk
strict_env = record sample_env { lib = record sample_lib { decode_spki = λ der. none } }

-- The key's file is there and empty.
abbrev corrupted : Daemon SampleDisk
unfolding daemon
corrupted = record daemon {
  manager = record sample_manager {
    device_policy = record sample_device {
      state = record sample_state {
        disk = put blank_disk (codes "/owner.key") (some []);
        key = PolicyKey.new (codes "/owner.key");
      };
    };
  };
}

abbrev read : Manager SampleDisk
unfolding corrupted
read = (PolicyCalls.initialize strict_env (codes "/boot_flag") corrupted.manager).0
