-- ===== src/SessionManager/Sessions.antt =====
-- session_manager_impl.cc: how a user's session is made and started, and how the browser is restarted.
use chromiumos_platform_logi.Prelude.{
  ℕ, Bool, true, false, not, ◌&&◌, ◌||◌, Option, none, some, List, [], ◌∷◌, ◌++◌, is_some, is_empty,
  Text, codes, text_eq, if◌then◌else◌,
}
use chromiumos_platform_logi.SystemUtils.{
  atomic_file_write, get_unique_filename_in_write_only_temp_dir, remove_file,
}
use chromiumos_platform_logi.NssUtil
use chromiumos_platform_logi.PolicyService.{
  ErrorCode, invalid_email, session_exists, policy_init_fail, no_user_nssdb, emit_failed,
  unknown_pid, illegal_service,
}
use chromiumos_platform_logi.UserPolicyService
use chromiumos_platform_logi.UserPolicyService.{UserService}
use chromiumos_platform_logi.LoginMetrics.{send_login_user_type}
use chromiumos_platform_logi.DevicePolicyService
use chromiumos_platform_logi.DevicePolicyService.{DeviceService, OwnerLogin}
use chromiumos_platform_logi.DeviceLocalAccounts.{string_to_lower_ascii}
use chromiumos_platform_logi.SessionManager.{
  Env, demo_user, logged_in_flag, testing_channel_flag, started, session_state_changed,
  upstart_signal, send_sample, set_browser_session, restart_browser_with_args, run_key_generator,
  mitigate_key_loss, UserSession, Manager, find, insert, all_sessions_are_incognito, emit, emit_if,
  disk_of, with_disk, Answer, refuse,
}
use chromiumos_platform_logi.SessionManager.Strings.{
  g_char_to_string, validate_email, is_valid_cookie,
}

-- What the rest of the system answers during a call.
pub record Answers : Type 0 where
  pub memory : ℕ → ℕ  -- what lies behind the buffer for a string
  pub dev_mode : Option Bool  -- none for -1
  pub mitigate : Bool  -- whether the mitigator starts
  pub emitted : Bool  -- whether `initctl` exits with 0

pub data Created : Type 0 where
  made : UserSession → Created
  not_made : ErrorCode → Created

-- The name as the sessions are kept by it.
unfoldable pub user_name : Answers → Text → Text
user_name answers email_address =
    string_to_lower_ascii (g_char_to_string answers.memory email_address)

module _ {Disk : Type 0} (env : Env Disk) where
  unfoldable pub create_user_session : Text → Bool → Disk → Disk × Created
  create_user_session username is_incognito d =
      let (d', user_policy) =
        UserPolicyService.create env.fs env.lib env.codec env.homes username d in
      elim user_policy [
        | none ↦ (d', not_made policy_init_fail)
        | some service ↦
            elim (NssUtil.open_user_db env.lib env.fs.append (env.homes.user_path username)) [
              | none ↦ (d', not_made no_user_nssdb)
              | some slot ↦ (
                d',
                made (record {
                  username = username;
                  userhash = env.homes.sanitize_user_name username;
                  is_incognito = is_incognito;
                  slot = slot;
                  key = service.state.key;
                  store = service.state.store;
                  key_copy_path = service.key_copy_path;
                }),
              )
            ]
      ]

  -- The session is entered, and the key generator is run for the first user of an unowned device.
  unfoldable pub enter_session : Text → UserSession → Bool → Manager Disk → Manager Disk
  enter_session email session is_first_real_user m =
      let entered = record (emit m (set_browser_session email session.userhash)) {
        session_started = true;
        user_sessions = insert email session m.user_sessions;
      } in
      let announced = emit entered (session_state_changed started) in
      let takes_ownership =
        DevicePolicyService.key_missing m.device_policy
        && (not m.device_policy.mitigating && is_first_real_user) in
      let asked = if takes_ownership then emit announced (run_key_generator email) else announced in
      with_disk asked (atomic_file_write env.fs (disk_of m) logged_in_flag (codes "1")).0

  -- What follows the owner's login.
  unfoldable pub login_checked :
      Answers → Text → Bool → UserSession → OwnerLogin Disk → Manager Disk → Answer Disk
  unfolding enter_session
  login_checked answers email is_incognito session owner m =
      let handled = record m { device_policy = owner.service } in
      let checked = emit_if owner.asked_mitigator handled (mitigate_key_loss session.username) in
      let first = all_sessions_are_incognito m && not is_incognito in
      let sampled : Manager Disk = elim answers.dev_mode [
        | none ↦ checked
        | some dev_mode ↦
            emit checked (send_sample (send_login_user_type dev_mode is_incognito owner.is_owner))
      ] in
      let signalled =
        emit sampled
          (upstart_signal (codes "start-user-session") (codes "CHROMEOS_USER=" ++ email)) in
      if not owner.success
      then refuse checked owner.error.code
      else if answers.emitted
      then record {
        manager = enter_session email session first signalled;
        success = true;
        error = none;
      }
      else refuse signalled emit_failed

  -- From the owner's login on.
  unfoldable pub login : Answers → Text → Bool → UserSession → Manager Disk → Answer Disk
  unfolding login_checked
  login answers email is_incognito session m =
      login_checked answers email is_incognito session
        (DevicePolicyService.check_and_handle_owner_login env.lib env.beyond env.codec
          answers.mitigate session.username session.slot m.device_policy)
        m

  unfoldable pub start_created : Answers → Text → Bool → Manager Disk → Answer Disk
  unfolding login
  start_created answers email is_incognito m =
      let (d, created) = create_user_session email is_incognito (disk_of m) in
      elim created [
        | not_made e ↦ refuse (with_disk m d) e
        | made session ↦ login answers email is_incognito session (with_disk m d)
      ]

  unfoldable pub is_incognito_name : Text → Bool
  is_incognito_name email = text_eq email env.guest_user_name || text_eq email demo_user

  unfoldable pub start_session : Answers → Text → Manager Disk → Answer Disk
  start_session answers email_address m =
      let email = user_name answers email_address in
      let is_incognito = is_incognito_name email in
      if not is_incognito && not (validate_email email)
      then refuse m invalid_email
      else if is_some (find email m.user_sessions)
      then refuse m session_exists
      else start_created answers email is_incognito m

  -- `none` for arguments that `g_shell_parse_argv` does not parse, with an error of its own.
  unfoldable pub restart_job : Answers → Bool → Option (List Text) → Manager Disk → Answer Disk
  restart_job answers is_browser parsed m =
      if not is_browser then refuse m unknown_pid else elim parsed [
        | none ↦ record { manager = m; success = false; error = none }
        | some argv ↦
            let a = start_session answers env.guest_user_name m in
            record a { manager = emit a.manager (restart_browser_with_args argv false) }
      ]

  unfoldable pub restart_job_with_auth :
      Answers → Text → Bool → Option (List Text) → Manager Disk → Answer Disk
  restart_job_with_auth answers cookie is_browser parsed m =
      if not (is_valid_cookie cookie m.cookie)
      then refuse m illegal_service
      else restart_job answers is_browser parsed m

  -- The path is kept from the first call on; the browser is restarted by it, or on demand.
  unfoldable pub enable_chrome_testing :
      Bool → List Text → Manager Disk → Manager Disk × Option Text
  enable_chrome_testing force_relaunch extra_args m =
      let relaunch : Text → Manager Disk → Manager Disk × Option Text = λ path m'.
        let removed = with_disk m' (remove_file env.fs (disk_of m') path).0 in
        let argv = extra_args ++ (testing_channel_flag ++ path) ∷ [] in
        (emit removed (restart_browser_with_args argv true), some path) in
      let (d, fresh) = get_unique_filename_in_write_only_temp_dir env.fs (disk_of m) in
      if not (is_empty m.chrome_testing_path)
      then (if force_relaunch
          then relaunch m.chrome_testing_path m
          else (m, some m.chrome_testing_path))
      else elim fresh [
        | none ↦ (with_disk m d, none)
        | some path ↦ relaunch path (record (with_disk m d) { chrome_testing_path = path })
      ]
