-- ===== src/Lib.antt =====
-- The Chromium OS login manager: the daemon that runs the browser, starts user sessions, and keeps
-- the device's and the users' policy with the keys that sign it.
--
-- The parts, and where they are modelled:
--   Prelude              numbers, lists, texts as bytes, and Outcome: a result, or a failed CHECK
--   Platform             what the program calls: files, NSS and the protobuf codec, as records of
--                        functions with their documented laws, and samples that keep the laws
--   SystemUtils          system_utils.cc: atomic writes, safe reads, waiting, signals
--   NssUtil              nss_util.cc: the program's calls of NSS
--   PolicyKey            policy_key.cc: the public key in memory and on disk
--   PolicyStore          policy_store.cc: the policy in memory and on disk
--   PolicyService        policy_service.cc: Store and Retrieve, and the tasks and replies of Store;
--                        Loop runs calls and tasks in any order
--   UserPolicyService    user_policy_service.cc, user_policy_service_factory.cc
--   DevicePolicyService  device_policy_service.cc: the owner, the settings and flag files; the owner
--                        in the policy in Properties, the browser's flags in StartUpFlags
--   DeviceLocalAccounts  device_local_account_policy_service.cc
--   LoginMetrics         login_metrics.cc: the codes that are sent
--   ChildJob             child_job.cc: argument vectors, restart limit, sessions, identity
--   KeyGenerator         key_generator.cc, regen_mitigator.cc
--   Liveness             liveness_checker_impl.cc
--   SessionManager       session_manager_impl.cc: strings in Strings, sessions in Sessions, policy
--                        calls in PolicyCalls, and every call as one step in Calls
--   SessionManagerService  session_manager_service.cc: the children of the daemon, and in Signals its
--                        signal handlers and the pipe they write to
--   DbusCalls            scoped_dbus_pending_call.cc, and the method calls of system_utils.cc; in Pinger
--                        the liveness checker again, down to the D-Bus library
--   UpstartSignalEmitter  upstart_signal_emitter.cc: the command for the shell
--   Daemon               session_manager_service.cc: the manager, the browser's job and the key
--                        generator as one state over events, and Run in Lifecycle
--   Main                 session_manager_main.cc: the switches, the set-up and the exit code
--   KeygenWorker         keygen.cc, keygen_worker.cc: the key tool's own process
--   XauthCookie          cros-xauth.c: the file with the X authority cookie
--   Samples              concrete libraries and states for the Examples modules
--
-- A function keeps the name of the source's function in snake case; helpers are the branches of one.
-- State is passed explicitly. The message loop is a list of posted tasks, D-Bus completions are
-- numbers with a list of replies, and signals and requests to other parts are lists in order. The
-- owner's key and the disk stand in the device service's state and are lent to the other services.
--
-- The answers of the kernel, of other processes and of libraries are arguments, and so are the bytes
-- that lie behind a buffer which the code reads past. Numbers are unbounded; the checks of sizes
-- against the largest int are written out. No definition uses fuel: loops go over lists, and a wait
-- goes over the list of the results of its calls.
--
-- Not modelled: in the composed daemon the tasks that policy services have posted, which
-- PolicyService.Loop runs for one service; the registration of glib types and signals;
-- dbus_glib_shim.cc, which forwards calls; file_checker.cc and, in system_utils.cc, fork, time,
-- the crossystem query and the clobber log, which are one library call each; the bootstat calls of
-- login_metrics.cc; scripts and tests.
pub mod Prelude
pub mod Platform
pub mod SystemUtils
pub mod NssUtil
pub mod PolicyKey
pub mod PolicyStore
pub mod PolicyService
pub mod UpstartSignalEmitter
pub mod UserPolicyService
pub mod LoginMetrics
pub mod DevicePolicyService
pub mod DeviceLocalAccounts
pub mod SessionManager
pub mod ChildJob
pub mod KeyGenerator
pub mod KeygenWorker
pub mod Liveness
pub mod SessionManagerService
pub mod Samples
pub mod XauthCookie
pub mod Daemon
pub mod DbusCalls
pub mod Main
