-- ===== src/SessionManager/PolicyCalls.antt =====
-- session_manager_impl.cc: the calls that store and retrieve policy, the device's wipe, and what the
-- policy services and the key generator call back.
use chromiumos_platform_logi.Prelude.{
  ℕ, Bool, true, false, Option, none, some, List, [], ◌∷◌, ◌++◌, map, Text, codes, if◌then◌else◌,
  Outcome, done, died, ◌>>=◌,
}
use chromiumos_platform_logi.SystemUtils.{atomic_file_write, exists}
use chromiumos_platform_logi.PolicyService
use chromiumos_platform_logi.PolicyService.{
  State, Task, Error, failure, reply, session_exists, already_session, encode_fail, key_rotate,
}
use chromiumos_platform_logi.PolicyStore
use chromiumos_platform_logi.UserPolicyService
use chromiumos_platform_logi.DevicePolicyService
use chromiumos_platform_logi.DevicePolicyService.{DeviceService}
use chromiumos_platform_logi.DeviceLocalAccounts
use chromiumos_platform_logi.DeviceLocalAccounts.{LocalAccounts}
use chromiumos_platform_logi.SessionManager.{
  Env, logged_in_flag, reset_file, property_change_complete, owner_key_set, send_sample,
  request_restart, UserSession, of_user, of_account, Manager, find, insert, emit, disk_of,
  with_disk, Answer, refuse,
}
use chromiumos_platform_logi.SessionManager.Sessions.{Answers, user_name}
use chromiumos_platform_logi.SessionManager.Strings.{g_char_to_string}

-- Both other flags, `KEY_INSTALL_NEW | KEY_CLOBBER`, are added before a session.
unfoldable pub store_flags : Bool → ℕ
store_flags session_started = if session_started then key_rotate else 7

-- `KEY_INSTALL_NEW | KEY_ROTATE`.
abbrev pub user_flags : ℕ
user_flags = 3

abbrev pub early_store_error : Error
early_store_error = record {
  code = session_exists;
  message = codes "Cannot store user policy before session is started.";
}

module _ {Disk : Type 0} where
  -- A user's policy service over the shared disk and the shared completions.
  unfoldable pub lend : Manager Disk → UserSession → State Disk
  lend m session = record {
    disk = disk_of m;
    key = session.key;
    store = session.store;
    has_delegate = false;
    posted = [];
    replies = m.device_policy.state.replies;
    notices = [];
  }

  unfoldable pub take_back : Text → UserSession → Manager Disk → State Disk → Manager Disk
  take_back name session m s =
      let p = m.device_policy in
      record m {
        device_policy = record p {
          state = record (p.state) { disk = s.disk; replies = s.replies };
        };
        user_sessions =
            insert name (record session { key = s.key; store = s.store }) m.user_sessions;
        posted = m.posted ++ map (λ t. (of_user name, t)) s.posted;
      }

  -- The accounts' service over the shared disk, the owner's key and the shared completions.
  unfoldable pub local_accounts : Manager Disk → LocalAccounts Disk
  local_accounts m = record {
    disk = disk_of m;
    owner_key = m.device_policy.state.key;
    device_local_account_dir = m.device_local_account_dir;
    policy_map = m.policy_map;
    posted = [];
    replies = m.device_policy.state.replies;
  }

  unfoldable pub accounts_back : Manager Disk → LocalAccounts Disk → Manager Disk
  accounts_back m l =
      let p = m.device_policy in
      record m {
        device_policy = record p {
          state = record (p.state) { disk = l.disk; key = l.owner_key; replies = l.replies };
        };
        policy_map = l.policy_map;
        posted = m.posted ++ map (λ e. (of_account e.0, e.1)) l.posted;
      }

  unfoldable pub on_key_persisted : Bool → Manager Disk → Manager Disk
  on_key_persisted success m = emit m (owner_key_set success)

-- `EncodeRetrievedPolicy`, given the memory for it.
unfoldable pub encode_retrieved_policy : Text × Bool → Option Text
encode_retrieved_policy (policy_data, true) = some policy_data
encode_retrieved_policy (policy_data, false) = none

module _ {Disk : Type 0} (env : Env Disk) where
  unfoldable pub store_policy : Text → ℕ → Manager Disk → Outcome (Manager Disk × Bool)
  store_policy blob completion m =
      DevicePolicyService.store env.fs env.codec env.lib env.beyond blob completion
        (store_flags m.session_started) m.device_policy
      >>= λ r. done (record m { device_policy = r.0 }, r.1)

  unfoldable pub retrieve_policy : Manager Disk → Option Text
  unfolding encode_retrieved_policy
  retrieve_policy m =
      encode_retrieved_policy (PolicyService.retrieve env.codec m.device_policy.state)

  unfoldable pub store_policy_for_user :
      Answers → Text → Text → ℕ → Manager Disk → Outcome (Manager Disk × Bool)
  store_policy_for_user answers user_email blob completion m =
      let name = user_name answers user_email in
      let p = m.device_policy in
      elim (find name m.user_sessions) [
        | none ↦ done (
          record m {
            device_policy = record p {
              state = reply p.state (failure completion early_store_error);
            };
          },
          false,
        )
        | some session ↦
            UserPolicyService.store env.lib env.beyond env.codec blob completion user_flags
              (lend m session)
            >>= λ r. done (take_back name session m r.0, r.1)
      ]

  unfoldable pub retrieve_policy_for_user : Answers → Text → Manager Disk → Option Text
  retrieve_policy_for_user answers user_email m =
      elim (find (user_name answers user_email) m.user_sessions) [
        | none ↦ none
        | some session ↦ encode_retrieved_policy (PolicyService.retrieve env.codec (lend m session))
      ]

  unfoldable pub store_device_local_account_policy :
      Answers → Text → Text → ℕ → Manager Disk → Outcome (Manager Disk × Bool)
  store_device_local_account_policy answers account_id blob completion m =
      DeviceLocalAccounts.store env.fs env.homes env.lib env.beyond env.codec
        (g_char_to_string answers.memory account_id) blob completion (local_accounts m)
      >>= λ r. done (accounts_back m r.0, r.1)

  unfoldable pub retrieve_device_local_account_policy :
      Answers → Text → Manager Disk → Manager Disk × Option Text
  retrieve_device_local_account_policy answers account_id m =
      let (l, found) =
        DeviceLocalAccounts.retrieve env.fs env.homes env.codec
          (g_char_to_string answers.memory account_id) (local_accounts m) in
      elim found [
        | none ↦ (accounts_back m l, none)
        | some r ↦ (accounts_back m l, encode_retrieved_policy r)
      ]

  unfoldable pub initiate_device_wipe : Manager Disk → Manager Disk
  initiate_device_wipe m =
      emit (with_disk m (atomic_file_write env.fs (disk_of m) reset_file (codes "fast safe")).0)
        request_restart

  unfoldable pub start_device_wipe : Manager Disk → Answer Disk
  start_device_wipe m =
      let wiped = initiate_device_wipe m in
      if exists env.fs (disk_of m) logged_in_flag
      then refuse m already_session
      else record { manager = wiped; success = true; error = none }

  -- The accounts are brought up to the device's settings.
  unfoldable pub update_accounts : Manager Disk → Manager Disk
  update_accounts m =
      let (p, settings) = DevicePolicyService.get_settings env.fs env.codec m.device_policy in
      let m' = record m { device_policy = p } in
      accounts_back m'
        (DeviceLocalAccounts.update_device_settings env.fs env.homes settings (local_accounts m'))

  unfoldable pub on_policy_persisted : Bool → Manager Disk → Manager Disk
  on_policy_persisted success m = update_accounts (emit m (property_change_complete success))

  unfoldable pub initialize : Text → Manager Disk → Manager Disk × Bool
  initialize per_boot_flag_file m =
      let (p, samples, ready) =
        DevicePolicyService.initialize env.fs env.codec env.lib per_boot_flag_file
          m.device_policy in
      let m' = record m { device_policy = p; effects = m.effects ++ map send_sample samples } in
      if ready then (update_accounts m', true) else (m', false)

  -- A user without a session has no slot to look in.
  unfoldable pub import_validate_and_store_generated_key :
      Text → Text → Manager Disk → Outcome (Manager Disk)
  import_validate_and_store_generated_key username temp_key_file m =
      let key : Text = elim (env.fs.read_file_to_string (disk_of m) temp_key_file) [
        | none ↦ []
        | some b ↦ b
      ] in
      let m' = with_disk m (env.fs.delete (disk_of m) temp_key_file false).0 in
      elim (find username m.user_sessions) [
        | none ↦ died
        | some session ↦
            DevicePolicyService.validate_and_store_owner_key env.lib env.beyond env.codec username
              key session.slot m'.device_policy
            >>= λ r. done (record m' { device_policy = r.0 })
      ]

  unfoldable pub finalize_users : List (Text × UserSession) → Disk → Disk
  finalize_users [] d = d
  finalize_users ((_, session) ∷ rest) d =
      finalize_users rest (PolicyStore.persist env.fs env.codec session.store d).0

  -- The sessions' services have no delegate and no completion that would hear of it.
  unfoldable pub finalize : Manager Disk → Manager Disk
  finalize m =
      let p = m.device_policy in
      let s = (PolicyService.persist_policy_sync env.fs env.codec p.state).0 in
      with_disk (record m { device_policy = record p { state = s } })
        (finalize_users m.user_sessions s.disk)
