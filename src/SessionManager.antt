-- ===== src/SessionManager.antt =====
-- session_manager_impl.h and session_manager_impl.cc: the calls that arrive over D-Bus. The disk and
-- the owner's key stand in the device service's state and are lent to the other services.
pub mod Strings
pub mod Examples
pub mod Locking
pub mod Sessions
pub mod PolicyCalls
pub mod Calls
pub mod Starting
pub mod Policies
use chromiumos_platform_logi.Prelude.{
  ℕ, ◌+◌, ◌≡◌, Bool, true, false, not, ◌&&◌, ◌||◌, Option, none, some, List, [], ◌∷◌, ◌++◌, map,
  length, is_some, is_empty, any, all, Text, codes, bit_or, text_eq, ltb, ◌==◌, if◌then◌else◌,
  Outcome, done, died, ◌>>=◌,
}
use chromiumos_platform_logi.Platform.Files.{FileSystem}
use chromiumos_platform_logi.Platform.Crypto.{NssLibrary}
use chromiumos_platform_logi.Platform.Messages.{Codec}
use chromiumos_platform_logi.SystemUtils.{
  atomic_file_write, get_unique_filename_in_write_only_temp_dir, remove_file,
}
use chromiumos_platform_logi.NssUtil
use chromiumos_platform_logi.PolicyKey.{PolicyKey, Beyond}
use chromiumos_platform_logi.PolicyStore
use chromiumos_platform_logi.PolicyStore.{PolicyStore}
use chromiumos_platform_logi.PolicyService
use chromiumos_platform_logi.PolicyService.{
  State, Task, Reply, failure, Error, ErrorCode, invalid_email, session_exists, policy_init_fail,
  no_user_nssdb, emit_failed, unknown_pid, illegal_service, already_session, decode_fail,
  encode_fail, key_rotate, key_install_new, key_clobber,
}
use chromiumos_platform_logi.UserPolicyService
use chromiumos_platform_logi.UserPolicyService.{Homes, UserService}
use chromiumos_platform_logi.LoginMetrics.{Sample, send_login_user_type}
use chromiumos_platform_logi.DevicePolicyService
use chromiumos_platform_logi.DevicePolicyService.{DeviceService, OwnerLogin}
use chromiumos_platform_logi.DeviceLocalAccounts
use chromiumos_platform_logi.DeviceLocalAccounts.{PolicyMap, LocalAccounts, string_to_lower_ascii}
use Strings.{g_char_to_string, validate_email, is_valid_cookie}

-- What the program is linked against, in one record.
pub record Env (Disk : Type 0) : Type 0 where
  pub fs : FileSystem Disk
  pub lib : NssLibrary
  pub codec : Codec
  pub homes : Homes
  pub beyond : Beyond
  pub guest_user_name : Text  -- of chromeos/cryptohome.h

abbrev pub demo_user : Text
demo_user = codes "demouser@"

abbrev pub logged_in_flag : Text
logged_in_flag = codes "/var/run/session_manager/logged_in"

abbrev pub reset_file : Text
reset_file = codes "/mnt/stateful_partition/factory_install_reset"

abbrev pub testing_channel_flag : Text
testing_channel_flag = codes "--testing-channel=NamedTestingInterface:"

pub data SessionState : Type 0 where
  started stopping stopped : SessionState

-- What the calls ask of the rest of the system, in order.
pub data Effect : Type 0 where
  session_state_changed : SessionState → Effect
  login_prompt_visible lock_screen_signal screen_is_locked screen_is_unlocked : Effect
  property_change_complete owner_key_set : Bool → Effect
  upstart_signal : Text → Text → Effect
  record_stat : Text → Effect
  send_sample : Sample → Effect
  set_browser_session : Text → Text → Effect
  set_flags_for_user : Text → List Text → Effect
  restart_browser_with_args : List Text → Bool → Effect
  run_key_generator mitigate_key_loss : Text → Effect
  schedule_shutdown request_restart : Effect

-- `SessionManagerImpl::UserSession`, with its policy service's own parts.
pub record UserSession : Type 0 where
  pub username : Text
  pub userhash : Text
  pub is_incognito : Bool
  pub slot : ℕ
  pub key : PolicyKey
  pub store : PolicyStore
  pub key_copy_path : Text

-- Which service a posted task belongs to.
pub data Service : Type 0 where
  of_device : Service
  of_user of_account : Text → Service

pub record Manager (Disk : Type 0) : Type 0 where
  pub session_started : Bool
  pub session_stopping : Bool
  pub screen_locked : Bool
  pub cookie : Text
  pub chrome_testing_path : Text
  pub device_policy : DeviceService Disk
  pub device_local_account_dir : Text
  pub policy_map : PolicyMap
  pub user_sessions : List (Text × UserSession)
  pub posted : List (Service × Task)
  pub effects : List Effect

unfoldable pub find : Text → List (Text × UserSession) → Option UserSession
find name [] = none
find name ((n, s) ∷ m) = if text_eq n name then some s else find name m

unfoldable pub insert : Text → UserSession → List (Text × UserSession) → List (Text × UserSession)
insert name v [] = (name, v) ∷ []
insert name v ((n, s) ∷ m) = if text_eq n name then (name, v) ∷ m else (n, s) ∷ insert name v m

-- The count equals the size exactly if no session counts as a user's.
unfoldable pub incognito_count : List (Text × UserSession) → ℕ
incognito_count [] = 0
incognito_count ((_, s) ∷ m) = (if s.is_incognito then 1 else 0) + incognito_count m

module _ {Disk : Type 0} where
  unfoldable pub all_sessions_are_incognito : Manager Disk → Bool
  unfolding incognito_count
  all_sessions_are_incognito m = incognito_count m.user_sessions == length m.user_sessions

  abbrev pub emit : Manager Disk → Effect → Manager Disk
  emit m e = record m { effects = m.effects ++ e ∷ [] }

  abbrev pub emit_if : Bool → Manager Disk → Effect → Manager Disk
  emit_if b m e = record m { effects = if b then m.effects ++ e ∷ [] else m.effects }

  abbrev pub disk_of : Manager Disk → Disk
  disk_of m = m.device_policy.state.disk

  abbrev pub with_disk : Manager Disk → Disk → Manager Disk
  with_disk m d =
      let p = m.device_policy in
      record m { device_policy = record p { state = record (p.state) { disk = d } } }

  unfoldable pub announce_session_stopping_if_needed : Manager Disk → Manager Disk
  announce_session_stopping_if_needed m =
      if m.session_started
      then emit (record m { session_stopping = true }) (session_state_changed stopping)
      else m

  unfoldable pub announce_session_stopped : Manager Disk → Manager Disk
  announce_session_stopped m = emit m (session_state_changed stopped)

  unfoldable pub emit_login_prompt_ready : Bool → Manager Disk → Manager Disk × Bool
  emit_login_prompt_ready emitted m = (
    emit (emit m (record_stat (codes "login-prompt-ready")))
        (upstart_signal (codes "login-prompt-ready") []),
    emitted,
  )

  unfoldable pub emit_login_prompt_visible : Bool → Manager Disk → Manager Disk × Bool
  emit_login_prompt_visible emitted m =
      let recorded = emit m (record_stat (codes "login-prompt-visible")) in
      (
        emit (emit recorded login_prompt_visible)
            (upstart_signal (codes "login-prompt-visible") []),
        emitted,
      )

  unfoldable pub stop_session : Manager Disk → Manager Disk × Bool
  stop_session m = (emit m schedule_shutdown, true)

  unfoldable pub retrieve_session_state : Manager Disk → SessionState
  retrieve_session_state m =
      if m.session_started then (if m.session_stopping then stopping else started) else stopped

  unfoldable pub retrieve_active_sessions : Manager Disk → List (Text × Text)
  retrieve_active_sessions m = map (λ e. ((e.1).username, (e.1).userhash)) m.user_sessions

  unfoldable pub lock_screen : Manager Disk → Manager Disk × Bool
  unfolding all_sessions_are_incognito
  lock_screen m =
      let locked =
        if m.screen_locked
        then m
        else emit (record m { screen_locked = true }) lock_screen_signal in
      if not m.session_started
      then (m, false)
      else if all_sessions_are_incognito m
      then (m, false)
      else (locked, true)

  unfoldable pub handle_lock_screen_shown : Manager Disk → Manager Disk
  handle_lock_screen_shown m = emit m screen_is_locked

  unfoldable pub handle_lock_screen_dismissed : Manager Disk → Manager Disk
  handle_lock_screen_dismissed m = emit (record m { screen_locked = false }) screen_is_unlocked

  unfoldable pub set_flags : Text → List Text → Manager Disk → Manager Disk
  set_flags user flags m = emit m (set_flags_for_user user flags)

-- What a call returns: the manager, the result, and the error that it set.
pub record Answer (Disk : Type 0) : Type 0 where
  pub manager : Manager Disk
  pub success : Bool
  pub error : Option ErrorCode

abbrev pub refuse : {Disk : Type 0} → Manager Disk → ErrorCode → Answer Disk
refuse m e = record { manager = m; success = false; error = some e }
