-- ===== src/DevicePolicyService/Settings.antt =====
-- The settings cache of device_policy_service.cc against the stored policy.
use chromiumos_platform_logi.Prelude.{
  ℕ, ◌≡◌, ◌≢◌, refl, sym, ◌∙◌, ap, subst, is_some, ◌⊎◌, Bool, true, false, none, some, Text, arith,
  done, >>=-eq-done, if◌then◌else◌,
}
use chromiumos_platform_logi.Platform.Files.{FileSystem}
use chromiumos_platform_logi.Platform.Crypto.{NssLibrary}
use chromiumos_platform_logi.Platform.Messages.{
  PolicyFetchResponse, ChromeDeviceSettings, Codec, CodecLaws, string_of, empty_settings,
}
use chromiumos_platform_logi.PolicyKey.{Beyond}
use chromiumos_platform_logi.PolicyStore
use chromiumos_platform_logi.PolicyService
use chromiumos_platform_logi.PolicyService.{State}
use chromiumos_platform_logi.PolicyService.Storing.{store-Accepted, store-Refused}
use chromiumos_platform_logi.NssUtil
use chromiumos_platform_logi.NssUtil.{blob_from_buffer}
use chromiumos_platform_logi.DevicePolicyService.Properties.{
  on_whitelist, stored_data, stored_settings,
}
use chromiumos_platform_logi.DevicePolicyService.Owner.{signed_succeeds, store_owner_properties_lem}
use chromiumos_platform_logi.DevicePolicyService.{
  DeviceService, get_settings, store, update_serial_number_recovery_flag_file,
  validate_and_store_owner_key, take_owner_key, store_owner,
}

-- The settings that a policy stands for.
pub decode : Codec → PolicyFetchResponse → ChromeDeviceSettings
decode c policy =
    let (policy_data, understood) = c.parse_policy_data (string_of policy.policy_data) in
    let read = (c.parse_settings (string_of policy_data.policy_value)).0 in
    if understood then read else empty_settings

-- The cache is empty or holds what the stored policy stands for.
abbrev pub IsCurrent : {Disk : Type 0} → Codec → DeviceService Disk → Type 0
IsCurrent c d = (d.settings ≡ none) ⊎ (d.settings ≡ some (decode c d.state.store.policy))

not_both : true ≡ false → ⊥
not_both h = cc

module _ {Disk : Type 0} (fs : FileSystem Disk) (lib : NssLibrary) (beyond : Beyond)
    (c : Codec) where
  -- Reading a current cache gives the settings of the stored policy, and leaves it current.
  get_settings-IsCurrent :
      (d : DeviceService Disk)
      → IsCurrent c d
      → ((get_settings fs c d).1 ≡ decode c d.state.store.policy)
        × IsCurrent c (get_settings fs c d).0
  unfolding get_settings decode
  get_settings-IsCurrent d h = ground arith

  -- The cache is emptied by an accepted call, whose policy is then the stored one.
  stored_cache :
      (blob : Text) (completion flags : ℕ) (d d' : DeviceService Disk) (accepted : Bool)
      → store fs c lib beyond blob completion flags d ≡ done (d', accepted)
      → (accepted ≡ true
          → (d'.settings ≡ none) × (d'.state.store.policy ≡ (c.parse_response blob).0))
        × (accepted ≡ false → (d'.settings ≡ d.settings) × (d'.state.store ≡ d.state.store))
  unfolding store update_serial_number_recovery_flag_file PolicyStore.set
  stored_cache blob completion flags d d' accepted h =
      let ((s, b), e, e') =
        >>=-eq-done (PolicyService.store lib beyond c blob completion flags d.state) _ h in
      ground (
        arith,
        store-Accepted lib beyond c blob completion flags d.state s,
        store-Refused lib beyond c blob completion flags d.state s,
      )

  -- An accepted policy takes effect: the settings read after it are its own. A refused one changes
  -- nothing, and keeps the cache as current as it was.
  pub get_settings-store :
      (blob : Text) (completion flags : ℕ) (d d' : DeviceService Disk) (accepted : Bool)
      → store fs c lib beyond blob completion flags d ≡ done (d', accepted)
      → IsCurrent c d
      → (accepted ≡ true → (get_settings fs c d').1 ≡ decode c (c.parse_response blob).0)
        × (accepted ≡ false → (get_settings fs c d').1 ≡ decode c d.state.store.policy)
  get_settings-store blob completion flags d d' accepted h cur =
      ground (arith, stored_cache blob completion flags d d' accepted h, get_settings-IsCurrent d')

  -- What the owner's key call leaves in the policy, and what it leaves of the cache.
  store_owner_lem :
      (user : Text) (key : ℕ) (t : DeviceService Disk)
      → CodecLaws c
      → ((content : Text) → is_some (NssUtil.sign lib content key) ≡ true)
      → let d' = store_owner lib beyond c user key t in
        (on_whitelist user (stored_settings c (stored_data c d'.state.store.policy)) ≡ true)
        × (d'.settings ≡ t.settings)
  unfolding store_owner PolicyService.post_persist_key PolicyService.post_persist_policy
  store_owner_lem user key t laws signs =
      let done_well = signed_succeeds lib beyond c user key t.state signs in
      let (_, listed, _) =
        store_owner_properties_lem lib beyond c user key t.state laws done_well in
      (ground arith, refl)

  settings-take_owner_key :
      (der : Text) (d t : DeviceService Disk) (taken : Bool)
      → take_owner_key lib beyond c der d ≡ done (t, taken)
      → t.settings ≡ d.settings
  unfolding take_owner_key
  settings-take_owner_key der d t taken h = ground arith

  -- By the laws of the codec: where settings are cached that do not list the user, and the user's key
  -- signs, an owner's key call that succeeds stores a policy whose settings list the user; but the
  -- settings that are read afterwards are still the cached ones, and so not those of the policy.
  pub get_settings-validate_and_store_owner_key :
      (user buf : Text) (slot key : ℕ) (d d' : DeviceService Disk) (old : ChromeDeviceSettings)
      → CodecLaws c
      → d.settings ≡ some old
      → on_whitelist user old ≡ false
      → NssUtil.get_private_key_for_user lib buf slot ≡ some key
      → ((content : Text) → is_some (NssUtil.sign lib content key) ≡ true)
      → validate_and_store_owner_key lib beyond c user buf slot d ≡ done (d', true)
      → let stored = stored_settings c (stored_data c d'.state.store.policy) in
        (on_whitelist user stored ≡ true)
        × ((get_settings fs c d').1 ≡ old)
        × ((get_settings fs c d').1 ≢ stored)
  unfolding get_settings validate_and_store_owner_key blob_from_buffer
  get_settings-validate_and_store_owner_key user buf slot key d d' old laws cached unlisted owns
        signs h =
      let ((t, taken), e₁, e₂) =
        >>=-eq-done (take_owner_key lib beyond c buf d)
          (λ r. done (if r.1 then (store_owner lib beyond c user key r.0, true) else (r.0, false)))
          (rw (owns, validate_and_store_owner_key) at h) in
      let (listed, kept) = store_owner_lem user key t laws signs in
      let same : store_owner lib beyond c user key t ≡ d' = ground arith in
      let listed' : on_whitelist user (stored_settings c (stored_data c d'.state.store.policy))
          ≡ true =
        subst
          (λ (x : DeviceService Disk).
            on_whitelist user (stored_settings c (stored_data c x.state.store.policy)) ≡ true)
          same listed in
      let reads : (get_settings fs c d').1 ≡ old =
        ground (arith, settings-take_owner_key buf d t taken e₁) in
      (
        listed',
        reads,
        λ e. not_both (sym listed' ∙ (ap (on_whitelist user) (sym e ∙ reads) ∙ unlisted)),
      )
