-- ===== src/SessionManager/Examples.antt =====
-- A user's session from its start over the lock screen to a policy that rotates the owner's key.
use chromiumos_platform_logi.Prelude.{
  all, ◌+◌, ◌≤◌, ◌<◌, ◌≡◌, ◌≢◌, ◌⊎◌, ◌↔◌, refl, true, false, some, none, [], ◌∷◌, length, Text,
  text_eq, codes, done, died,
}
use chromiumos_platform_logi.Platform.SampleDisk.{SampleDisk, sample_files}
use chromiumos_platform_logi.Platform.SampleCodec.{sample_codec}
use chromiumos_platform_logi.Platform.Messages.{string_of}
use chromiumos_platform_logi.PolicyKey.{PolicyKey, is_populated, verify}
use chromiumos_platform_logi.PolicyStore
use chromiumos_platform_logi.PolicyService.{State, session_exists, persist_key, persist_policy}
use chromiumos_platform_logi.DevicePolicyService.{
  DeviceService, update_serial_number_recovery_flag_file,
}
use chromiumos_platform_logi.SessionManager.{
  Manager, UserSession, find, lock_screen_signal, screen_is_locked, refuse,
}
use chromiumos_platform_logi.SessionManager.Strings.{
  is_legal_character, validate_email, is_valid_cookie, g_char_to_string, max_g_char_buffer_size,
}
use chromiumos_platform_logi.SessionManager.Strings.Facts.{
  Comparable, is_valid_cookie_iff, separators, validate_email_iff, g_char_to_string_lem,
}
use chromiumos_platform_logi.SessionManager.Sessions.{user_name, is_incognito_name, start_session}
use chromiumos_platform_logi.SessionManager.PolicyCalls.{store_policy}
use chromiumos_platform_logi.SessionManager.Calls.{lock, lock_shown, run_calls, run_call}
use chromiumos_platform_logi.SessionManager.Locking.{IsGuarded, run_calls-IsGuarded}
use chromiumos_platform_logi.SessionManager.Starting.{Entered, start_session_lem}
use chromiumos_platform_logi.SessionManager.Policies.{
  store_device_policy_survives, store_policy_in_session,
}
use chromiumos_platform_logi.Samples.{
  sample_lib, sample_env, sample_answers, sample_manager, sample_state, sample_device, owner_key,
  rotation, rotation_blob,
}

abbrev ann : Text
ann = codes "ann@b.c"

abbrev session : UserSession
session = record {
  username = ann;
  userhash = codes "#ann";
  is_incognito = false;
  slot = 5;
  key = owner_key;
  store = PolicyStore.new (codes "/p");
  key_copy_path = [];
}

abbrev in_session : Manager SampleDisk
in_session = record sample_manager { session_started = true; user_sessions = (ann, session) ∷ [] }

abbrev locked : Manager SampleDisk
locked = record in_session {
  screen_locked = true;
  effects = lock_screen_signal ∷ screen_is_locked ∷ [];
}

screen_locks : run_calls sample_env (lock ∷ lock_shown ∷ []) in_session ≡ done locked
unfolding run_calls run_call chromiumos_platform_logi.SessionManager.handle_lock_screen_shown
    chromiumos_platform_logi.SessionManager.lock_screen
screen_locks = refl

run_calls-IsGuarded_example : IsGuarded locked
run_calls-IsGuarded_example =
    run_calls-IsGuarded sample_env (lock ∷ lock_shown ∷ []) in_session locked screen_locks (λ h. cc)

start_session_lem_example :
    let answer = start_session sample_env sample_answers ann sample_manager in
    let email = user_name sample_answers ann in
    Entered sample_env email (codes "bob@b.c") sample_manager answer
    × (answer.success ≡ true
        → (find email sample_manager.user_sessions ≡ none)
          × ((validate_email email ≡ true) ⊎ (is_incognito_name sample_env email ≡ true)))
start_session_lem_example =
    start_session_lem sample_env sample_answers ann (codes "bob@b.c") sample_manager

store_device_policy_survives_example :
    store_policy sample_env (codes "junk") 1 sample_manager ≢ died
store_device_policy_survives_example =
    store_device_policy_survives sample_env (codes "junk") 1 sample_manager refl

abbrev rotated : DeviceService SampleDisk
rotated = record sample_device {
  state = record sample_state {
    key = record owner_key { key = codes "L"; have_replaced = true };
    store = record { policy_path = codes "/policy"; policy = rotation };
    posted = persist_key ∷ persist_policy (some 1) ∷ [];
  };
}

abbrev policy_stored : Manager SampleDisk
policy_stored = record in_session {
  device_policy =
      record (update_serial_number_recovery_flag_file sample_files sample_codec rotated) {
        settings = none;
      };
}

store_rotates : store_policy sample_env rotation_blob 1 in_session ≡ done (policy_stored, true)
unfolding store_policy chromiumos_platform_logi.DevicePolicyService.store
    chromiumos_platform_logi.PolicyService.store chromiumos_platform_logi.PolicyService.store_policy
    chromiumos_platform_logi.PolicyService.has_other_key chromiumos_platform_logi.PolicyKey.equals
    chromiumos_platform_logi.PolicyKey.v_equals chromiumos_platform_logi.PolicyService.install_key
    chromiumos_platform_logi.PolicyService.clobber_if_allowed
    chromiumos_platform_logi.PolicyService.rotate_or_install is_populated
    chromiumos_platform_logi.PolicyService.has_flag
    chromiumos_platform_logi.SessionManager.PolicyCalls.store_flags
    chromiumos_platform_logi.PolicyKey.rotate verify chromiumos_platform_logi.NssUtil.verify text_eq
    chromiumos_platform_logi.NssUtil.blob_from_buffer
    chromiumos_platform_logi.DevicePolicyService.recovery_needed
    update_serial_number_recovery_flag_file
    chromiumos_platform_logi.PolicyKey.clobber_compromised_key
    chromiumos_platform_logi.PolicyKey.populate_from_buffer
    chromiumos_platform_logi.PolicyKey.same_bytes
    chromiumos_platform_logi.PolicyService.after_install chromiumos_platform_logi.PolicyService.post
    chromiumos_platform_logi.PolicyService.post_persist_key
    chromiumos_platform_logi.PolicyService.post_persist_policy
    chromiumos_platform_logi.PolicyService.reply
    chromiumos_platform_logi.PolicyService.verify_and_store PolicyStore.set
store_rotates = refl

store_policy_in_session_example :
    (policy_stored.device_policy.state.key ≡ owner_key)
    ⊎ ((is_populated owner_key ≡ true)
        × (policy_stored.device_policy.state.key.key ≡ string_of rotation.new_public_key)
        × (verify sample_lib owner_key
              (string_of rotation.new_public_key)
              (string_of rotation.new_public_key_signature)
            ≡ true))
store_policy_in_session_example =
    store_policy_in_session sample_env rotation_blob 1 in_session policy_stored true refl
      store_rotates

is_valid_cookie_iff_example :
    (is_valid_cookie [] (codes "cookie") ≡ true) ↔ Comparable [] (codes "cookie")
is_valid_cookie_iff_example = is_valid_cookie_iff [] (codes "cookie")

g_char_to_string_example :
    (length ann ≤ max_g_char_buffer_size → g_char_to_string (λ i. 7) ann ≡ ann)
    × (max_g_char_buffer_size + 1 < length ann
        → g_char_to_string (λ i. 0) ann ≢ g_char_to_string (λ i. 1) ann)
g_char_to_string_example = g_char_to_string_lem (λ i. 7) ann

validate_email_iff_example :
    (validate_email ann ≡ true) ↔ ((all is_legal_character ann ≡ true) × (separators ann ≡ 1))
validate_email_iff_example = validate_email_iff ann
