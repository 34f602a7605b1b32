-- ===== src/DevicePolicyService.antt =====
-- device_policy_service.h and device_policy_service.cc: the device's policy, its owner, and what the
-- program reads out of the settings. The policy service that it extends is in PolicyService.antt.
pub mod Examples
pub mod Properties
pub mod StartUpFlags
pub mod Owner
pub mod Flags
pub mod Serial
pub mod Settings
use chromiumos_platform_logi.Prelude.{
  ℕ, ◌≡◌, Bool, true, false, not, ◌&&◌, ◌||◌, Option, none, some, List, [], ◌∷◌, ◌++◌, is_some,
  is_empty, any, Text, codes, text_eq, if◌then◌else◌, length, leb, ◌==◌, Outcome, done, died, ◌>>=◌,
}
use chromiumos_platform_logi.Platform.Files.{FileSystem}
use chromiumos_platform_logi.Platform.Crypto.{NssLibrary}
use chromiumos_platform_logi.Platform.Messages.{
  PolicyFetchResponse, PolicyData, ChromeDeviceSettings, Codec, string_of, empty_response,
  empty_policy_data, empty_settings,
}
use chromiumos_platform_logi.NssUtil
use chromiumos_platform_logi.NssUtil.{blob_from_buffer}
use chromiumos_platform_logi.PolicyKey
use chromiumos_platform_logi.PolicyKey.{PolicyKey, Beyond, is_populated}
use chromiumos_platform_logi.PolicyStore
use chromiumos_platform_logi.PolicyService
use chromiumos_platform_logi.PolicyService.{
  State, Error, illegal_pubkey, decode_fail, post_persist_key, post_persist_policy,
}
use chromiumos_platform_logi.LoginMetrics.{
  PolicyFileState, good, malformed, not_present, PolicyFilesStatus, Sample,
  send_policy_files_status,
}
use chromiumos_platform_logi.DevicePolicyService.Properties.{
  sign_error, store_owner_properties, given_user_is_owner,
}

pub record DeviceService (Disk : Type 0) : Type 0 where
  pub state : State Disk
  pub settings : Option ChromeDeviceSettings  -- the cache
  pub mitigating : Bool  -- the mitigator's state
  pub serial_recovery_flag_file : Text
  pub policy_file : Text

abbrev pub owner_error : Error
owner_error = record {
  code = illegal_pubkey;
  message = codes "Could not verify that owner key belongs to this user.";
}

-- The error that a caller hands in, before it is set.
abbrev pub unset_error : Error
unset_error = record { code = decode_fail; message = [] }

-- The result of `CheckAndHandleOwnerLogin`.
pub record OwnerLogin (Disk : Type 0) : Type 0 where
  pub service : DeviceService Disk
  pub success : Bool
  pub is_owner : Bool
  pub asked_mitigator : Bool  -- whether `Mitigate` was called, for this user
  pub error : Error

module _ {Disk : Type 0} (lib : NssLibrary) (beyond : Beyond) (c : Codec) where
  -- `mitigate` is the result of `Start` of the key generator, which the mitigator passes on.
  unfoldable pub mitigate_if_lost :
      Bool → Text → DeviceService Disk → Option ℕ → Error → OwnerLogin Disk
  mitigate_if_lost mitigate user d signing_key error =
      let owns = given_user_is_owner c user d.state in
      if owns && not (is_some signing_key)
      then record {
        service = record d { mitigating = mitigate };
        success = mitigate;
        is_owner = owns;
        asked_mitigator = true;
        error = error;
      }
      else record {
        service = d;
        success = true;
        is_owner = owns;
        asked_mitigator = false;
        error = error;
      }

  unfoldable pub login_with_key : Bool → Text → DeviceService Disk → ℕ → OwnerLogin Disk
  login_with_key mitigate user d key =
      let (s, failed) = store_owner_properties lib beyond c user key d.state in
      let d' = record d { state = s } in
      elim failed [
        | none ↦ mitigate_if_lost mitigate user d' (some key) unset_error
        | some e ↦ record {
          service = d';
          success = false;
          is_owner = false;
          asked_mitigator = false;
          error = e;
        }
      ]

  unfoldable pub check_and_handle_owner_login :
      Bool → Text → ℕ → DeviceService Disk → OwnerLogin Disk
  check_and_handle_owner_login mitigate user slot d =
      elim (NssUtil.get_private_key_for_user lib d.state.key.key slot) [
        | none ↦ mitigate_if_lost mitigate user d none owner_error
        | some key ↦ login_with_key mitigate user d key
      ]

  -- Clobber or populate while mitigating; else populate, and clear what policy there was.
  unfoldable pub take_owner_key : Text → DeviceService Disk → Outcome (DeviceService Disk × Bool)
  take_owner_key pub_key d =
      let s = d.state in
      let put : PolicyKey × Bool → DeviceService Disk × Bool =
        λ r. (record d { state = record s { key = r.0 } }, r.1) in
      let clobbered = PolicyKey.clobber_compromised_key s.key pub_key >>= λ r. done (put r) in
      let (k, populated) = PolicyKey.populate_from_buffer s.key pub_key in
      let fresh = record d {
        state = record s { key = k; store = PolicyStore.set s.store empty_response };
      } in
      if d.mitigating
      then (if is_populated s.key then clobbered else done (put (k, populated)))
      else done (if populated then (fresh, true) else (d, false))

  unfoldable pub store_owner : Text → ℕ → DeviceService Disk → DeviceService Disk
  store_owner user signing_key d =
      let (s, failed) = store_owner_properties lib beyond c user signing_key d.state in
      let s' = if is_some failed then s else post_persist_policy (post_persist_key s) none in
      record d { state = s' }

  unfoldable pub validate_and_store_owner_key :
      Text → Text → ℕ → DeviceService Disk → Outcome (DeviceService Disk × Bool)
  validate_and_store_owner_key user buf slot d =
      let pub_key = blob_from_buffer buf in
      elim (NssUtil.get_private_key_for_user lib pub_key slot) [
        | none ↦ done (d, false)
        | some signing_key ↦ take_owner_key pub_key d >>= λ r.
            done (if r.1 then (store_owner user signing_key r.0, true) else (r.0, false))
      ]

module _ {Disk : Type 0} where
  unfoldable pub key_missing : DeviceService Disk → Bool
  key_missing d = d.state.key.have_checked_disk && not (is_populated d.state.key)

module _ {Disk : Type 0} (fs : FileSystem Disk) (c : Codec) where
  -- Whether the machine's serial number has to be recovered.
  unfoldable pub recovery_needed : DeviceService Disk → Bool
  recovery_needed d =
      let missing : Bool = elim (fs.get_file_size d.state.disk d.policy_file) [
        | none ↦ true
        | some n ↦ n == 0
      ] in
      let asked : Bool = elim d.state.store.policy.policy_data [
        | none ↦ false
        | some bytes ↦
            let (policy_data, parsed) = c.parse_policy_data bytes in
            parsed
            && (not (is_empty (string_of policy_data.request_token))
                && policy_data.valid_serial_number_missing)
      ] in
      missing || asked

  unfoldable pub update_serial_number_recovery_flag_file : DeviceService Disk → DeviceService Disk
  update_serial_number_recovery_flag_file d =
      let file = d.serial_recovery_flag_file in
      let disk =
        if recovery_needed d
        then (fs.write_file d.state.disk file []).0
        else (fs.delete d.state.disk file false).0 in
      record d { state = record (d.state) { disk = disk } }

  unfoldable pub store :
      NssLibrary → Beyond → Text → ℕ → ℕ → DeviceService Disk → Outcome (DeviceService Disk × Bool)
  store lib beyond blob completion flags d =
      PolicyService.store lib beyond c blob completion flags d.state >>= λ r.
      let d' = record d { state = r.0 } in
      done (
        if r.1
        then (record (update_serial_number_recovery_flag_file d') { settings = none }, true)
        else (d', false))

  -- The cache is filled from the stored policy by the first call.
  unfoldable pub get_settings : DeviceService Disk → DeviceService Disk × ChromeDeviceSettings
  get_settings d =
      let (policy_data, understood) =
        c.parse_policy_data (string_of d.state.store.policy.policy_data) in
      let read = (c.parse_settings (string_of policy_data.policy_value)).0 in
      let decoded = if understood then read else empty_settings in
      elim d.settings [ none ↦ (record d { settings = some decoded }, decoded) | some s ↦ (d, s) ]

  unfoldable pub policy_files_status :
      NssLibrary → Bool → Bool → DeviceService Disk → PolicyFilesStatus
  policy_files_status lib key_success policy_success d =
      let key_state =
        if not key_success
        then malformed
        else if is_populated d.state.key
        then (if NssUtil.check_public_key_blob lib d.state.key.key then good else malformed)
        else not_present in
      let kept : PolicyFileState = elim (c.serialize_response d.state.store.policy) [
        | none ↦ malformed
        | some bytes ↦ if is_empty bytes then not_present else good
      ] in
      record {
        owner_key_file_state = key_state;
        policy_file_state = if policy_success then kept else malformed;
        defunct_prefs_file_state =
            if PolicyStore.defunct_prefs_file_present fs d.state.store d.state.disk
            then good
            else not_present;
      }

  -- `Initialize`, with the samples that it reports.
  unfoldable pub initialize :
      NssLibrary → Text → DeviceService Disk → DeviceService Disk × List Sample × Bool
  initialize lib per_boot_flag_file d =
      let (k, key_success) =
        PolicyKey.populate_from_disk_if_possible fs lib d.state.key d.state.disk in
      let loaded = PolicyStore.load_or_create fs c d.state.store d.state.disk in
      let d₁ = record d {
        state = record (d.state) { key = k; store = loaded.store; disk = loaded.disk };
      } in
      let status = policy_files_status lib key_success loaded.success d₁ in
      let (disk, samples) = send_policy_files_status fs per_boot_flag_file status d₁.state.disk in
      let d₂ = record d₁ { state = record (d₁.state) { disk = disk } } in
      (update_serial_number_recovery_flag_file d₂, samples, key_success)
