-- ===== src/DevicePolicyService/Examples.antt =====
-- An owner who takes a device, logs in, and changes its policy.
use chromiumos_platform_logi.Prelude.{
  any, ◌≢◌, inl, ◌≡◌, ◌⊎◌, refl, true, false, some, none, is_some, [], ◌∷◌, Text, codes, done,
}
use chromiumos_platform_logi.Platform.SampleDisk.{SampleDisk, sample_files}
use chromiumos_platform_logi.Platform.SampleCodec.{sample_codec, sample_codec_laws}
use chromiumos_platform_logi.Platform.Messages.{empty_response, empty_settings}
use chromiumos_platform_logi.NssUtil
use chromiumos_platform_logi.PolicyKey
use chromiumos_platform_logi.PolicyStore
use chromiumos_platform_logi.PolicyService
use chromiumos_platform_logi.PolicyService.{State, key_rotate, persist_key, persist_policy}
use chromiumos_platform_logi.DevicePolicyService.{
  DeviceService, check_and_handle_owner_login, get_settings, recovery_needed, store,
  update_serial_number_recovery_flag_file, validate_and_store_owner_key,
}
use chromiumos_platform_logi.DevicePolicyService.Properties.{
  is_settled, on_whitelist, store_owner_properties, stored_data, stored_settings,
}
use chromiumos_platform_logi.DevicePolicyService.Owner.{
  store_owner_properties_lem, check_and_handle_owner_login_lem, validate_and_store_owner_key_lem,
}
use chromiumos_platform_logi.DevicePolicyService.Settings.{
  get_settings-validate_and_store_owner_key, get_settings-store, decode,
}
use chromiumos_platform_logi.Samples.{
  sample_lib, sample_beyond, owner_key, sample_state, sample_device,
}

abbrev owner : Text
owner = codes "owner@x"

abbrev with_properties : State SampleDisk
unfolding store_owner_properties
with_properties =
    (store_owner_properties sample_lib sample_beyond sample_codec owner 7 sample_state).0

properties_stored :
    (store_owner_properties sample_lib sample_beyond sample_codec owner 7 sample_state).1 ≡ none
unfolding store_owner_properties is_settled stored_data
    chromiumos_platform_logi.DevicePolicyService.Properties.put_signed NssUtil.sign
properties_stored = refl

store_owner_properties_example :
    let r = store_owner_properties sample_lib sample_beyond sample_codec owner 7 sample_state in
    let poldata = stored_data sample_codec r.0.store.policy in
    (poldata.username ≡ some owner)
    × (on_whitelist owner (stored_settings sample_codec poldata) ≡ true)
    × (r.0.key ≡ owner_key)
store_owner_properties_example =
    store_owner_properties_lem sample_lib sample_beyond sample_codec owner 7 sample_state
      sample_codec_laws properties_stored

owner_login_example :
    let r =
      check_and_handle_owner_login sample_lib sample_beyond sample_codec false owner 5
        sample_device in
    (r.success ≡ true
      → r.is_owner ≡ true
      → (is_some (NssUtil.get_private_key_for_user sample_lib (codes "K") 5) ≡ true)
        ⊎ ((false ≡ true) × (r.service.mitigating ≡ true)))
    × (r.service.state.key ≡ owner_key)
owner_login_example =
    check_and_handle_owner_login_lem sample_lib sample_beyond sample_codec false owner 5
      sample_device

abbrev unowned : DeviceService SampleDisk
unowned = record sample_device {
  state = record sample_state { key = record owner_key { key = [] } };
}

abbrev taken : DeviceService SampleDisk
unfolding store_owner_properties
taken = record unowned {
  state =
      record (store_owner_properties sample_lib sample_beyond sample_codec owner 7 sample_state).0 {
        posted = persist_key ∷ persist_policy none ∷ [];
      };
}

key_validates :
    validate_and_store_owner_key sample_lib sample_beyond sample_codec owner (codes "K") 5 unowned
    ≡ done (taken, true)
unfolding validate_and_store_owner_key NssUtil.get_private_key_for_user NssUtil.blob_from_buffer
    NssUtil.decode_public_key NssUtil.find_private_key
    chromiumos_platform_logi.DevicePolicyService.take_owner_key PolicyKey.populate_from_buffer taken
    chromiumos_platform_logi.DevicePolicyService.store_owner is_settled stored_data PolicyStore.set
    chromiumos_platform_logi.DevicePolicyService.Properties.put_signed NssUtil.sign
    PolicyService.post_persist_policy PolicyService.post_persist_key
key_validates = refl

validate_and_store_owner_key_example :
    (true ≡ true
      → (taken.state.key.key ≡ codes "K")
        × (is_some (NssUtil.get_private_key_for_user sample_lib (codes "K") 5) ≡ true)
        × (unowned.state.key.have_checked_disk ≡ true)
        × ((unowned.mitigating ≡ true) ⊎ (PolicyKey.is_populated unowned.state.key ≡ false)))
    × (true ≡ false → taken ≡ unowned)
validate_and_store_owner_key_example =
    validate_and_store_owner_key_lem sample_lib sample_beyond sample_codec owner (codes "K") 5
      unowned taken true key_validates

abbrev cached : DeviceService SampleDisk
cached = record unowned { settings = some empty_settings }

abbrev cached_taken : DeviceService SampleDisk
unfolding store_owner_properties
cached_taken = record taken { settings = some empty_settings }

cached_key_validates :
    validate_and_store_owner_key sample_lib sample_beyond sample_codec owner (codes "K") 5 cached
    ≡ done (cached_taken, true)
unfolding validate_and_store_owner_key NssUtil.get_private_key_for_user NssUtil.blob_from_buffer
    NssUtil.decode_public_key NssUtil.find_private_key
    chromiumos_platform_logi.DevicePolicyService.take_owner_key PolicyKey.populate_from_buffer
    cached_taken chromiumos_platform_logi.DevicePolicyService.store_owner is_settled stored_data
    PolicyStore.set chromiumos_platform_logi.DevicePolicyService.Properties.put_signed NssUtil.sign
    PolicyService.post_persist_policy PolicyService.post_persist_key
cached_key_validates = refl

owner_unlisted : on_whitelist owner empty_settings ≡ false
unfolding on_whitelist any
owner_unlisted = refl

owner_holds_key : NssUtil.get_private_key_for_user sample_lib (codes "K") 5 ≡ some 7
unfolding NssUtil.get_private_key_for_user NssUtil.decode_public_key NssUtil.find_private_key
owner_holds_key = refl

signs : (content : Text) → is_some (NssUtil.sign sample_lib content 7) ≡ true
unfolding NssUtil.sign
signs content = refl

stale_settings_example :
    let stored =
      stored_settings sample_codec (stored_data sample_codec cached_taken.state.store.policy) in
    (on_whitelist owner stored ≡ true)
    × ((get_settings sample_files sample_codec cached_taken).1 ≡ empty_settings)
    × ((get_settings sample_files sample_codec cached_taken).1 ≢ stored)
unfolding cached_taken
stale_settings_example =
    get_settings-validate_and_store_owner_key sample_files sample_lib sample_beyond sample_codec
      owner (codes "K") 5 7 cached cached_taken empty_settings sample_codec_laws refl owner_unlisted
      owner_holds_key signs cached_key_validates

abbrev refused : DeviceService SampleDisk
refused = record sample_device {
  state = record sample_state { replies = PolicyService.failure 1 PolicyService.parse_error ∷ [] };
}

junk_refused :
    store sample_files sample_codec sample_lib sample_beyond [] 1 key_rotate sample_device
    ≡ done (refused, false)
unfolding store PolicyService.store PolicyService.reply
junk_refused = refl

get_settings-store_example :
    (false ≡ true
      → (get_settings sample_files sample_codec refused).1 ≡ decode sample_codec empty_response)
    × (false ≡ false
        → (get_settings sample_files sample_codec refused).1 ≡ decode sample_codec empty_response)
get_settings-store_example =
    get_settings-store sample_files sample_lib sample_beyond sample_codec [] 1 key_rotate
      sample_device refused false junk_refused (inl refl)
