-- ===== src/DevicePolicyService/Owner.antt =====
-- Who owns the device: device_policy_service.cc `StoreOwnerProperties`, `CheckAndHandleOwnerLogin` and
-- `ValidateAndStoreOwnerKey`.
use chromiumos_platform_logi.Prelude.{
  ℕ, ◌≡◌, refl, sym, ◌∙◌, ap, ◌⊎◌, inl, inr, Bool, true, false, none, some, List, [], ◌∷◌, ◌++◌,
  any, is_some, Text, arith, done, Bool-cases, Option-cases, >>=-eq-done, text_eq, text_eq_refl,
  text_eq→eq, if◌then◌else◌,
}
use chromiumos_platform_logi.Platform.Crypto.{NssLibrary}
use chromiumos_platform_logi.Platform.Messages.{
  PolicyFetchResponse, PolicyData, ChromeDeviceSettings, Codec, CodecLaws, string_of,
}
use chromiumos_platform_logi.NssUtil
use chromiumos_platform_logi.NssUtil.{blob_from_buffer}
use chromiumos_platform_logi.PolicyKey.{
  PolicyKey, Beyond, is_populated, equals, populate_from_buffer, clobber_compromised_key,
}
use chromiumos_platform_logi.PolicyKey.Equality.{v_equals-iff-eq}
use chromiumos_platform_logi.PolicyStore
use chromiumos_platform_logi.PolicyService.{State, post_persist_key, post_persist_policy}
use chromiumos_platform_logi.DevicePolicyService.{
  DeviceService, check_and_handle_owner_login, login_with_key, mitigate_if_lost, store_owner,
  take_owner_key, validate_and_store_owner_key,
}
use chromiumos_platform_logi.DevicePolicyService.Properties.{
  device_policy_type, is_device_policy, is_settled, on_whitelist, owned_data, put_signed,
  store_owner_properties, stored_data, stored_settings, with_owner,
}

any-snoc : (user : Text) (us : List Text) → any (λ u. text_eq user u) (us ++ user ∷ []) ≡ true
unfolding any
any-snoc user [] = ground (arith, text_eq_refl user)
any-snoc user (u ∷ us) = ground (arith, any-snoc user us)

on_whitelist-with_owner :
    (user : Text) (polval : ChromeDeviceSettings)
    → on_whitelist user (with_owner user polval) ≡ true
unfolding with_owner on_whitelist
on_whitelist-with_owner user polval = ground (arith, any-snoc user polval.user_whitelist)

is_device_policy-owned_data :
    (c : Codec) (user : Text) (poldata : PolicyData) (polval : ChromeDeviceSettings)
    → is_device_policy (owned_data c user poldata polval) ≡ true
unfolding owned_data is_device_policy
is_device_policy-owned_data c user poldata polval = ground (arith, text_eq_refl device_policy_type)

owned_data_fields :
    (c : Codec) (user : Text) (poldata : PolicyData) (polval : ChromeDeviceSettings)
    → ((owned_data c user poldata polval).username ≡ some user)
      × ((owned_data c user poldata polval).policy_value ≡ some (c.serialize_settings polval))
unfolding owned_data
owned_data_fields c user poldata polval = (refl, refl)

settings_of_value :
    (c : Codec) (poldata : PolicyData) (polval : ChromeDeviceSettings)
    → CodecLaws c
    → is_device_policy poldata ≡ true
    → poldata.policy_value ≡ some (c.serialize_settings polval)
    → stored_settings c poldata ≡ polval
unfolding stored_settings
settings_of_value c poldata polval laws device value =
    ground (arith, laws.parse_serialized_settings polval)

data_of_bytes :
    (c : Codec) (policy : PolicyFetchResponse) (poldata : PolicyData)
    → CodecLaws c
    → policy.policy_data ≡ some (c.serialize_policy_data poldata)
    → stored_data c policy ≡ poldata
unfolding stored_data
data_of_bytes c policy poldata laws bytes = ground (arith, laws.parse_serialized_data poldata)

equals_self : (beyond : Beyond) (k : PolicyKey) → equals beyond k k.key ≡ true
unfolding equals
equals_self beyond k = (v_equals-iff-eq beyond k k.key refl).1 refl

-- The data that a successful call writes.
abbrev new_data : Codec → Text → PolicyFetchResponse → PolicyData
new_data c user policy =
    let poldata = stored_data c policy in
    owned_data c user poldata (with_owner user (stored_settings c poldata))

module _ {Disk : Type 0} (lib : NssLibrary) (beyond : Beyond) (c : Codec) (user : Text)
    (key : ℕ) where
  -- Either nothing had to change, or new signed data is stored under the service's key, or signing
  -- failed.
  properties_cases :
      (s : State Disk)
      → let r = store_owner_properties lib beyond c user key s in
        ((is_settled lib beyond c user s ≡ true) × (r ≡ (s, none)))
        ⊎ (((is_settled lib beyond c user s ≡ false)
              × (r.1 ≡ none)
              × (r.0.key ≡ s.key)
              × (r.0.store.policy.new_public_key ≡ some s.key.key)
              × (r.0.store.policy.policy_data
                  ≡ some (c.serialize_policy_data (new_data c user s.store.policy))))
            ⊎ ((is_some r.1 ≡ true) × (r.0 ≡ s)))
  unfolding store_owner_properties put_signed PolicyStore.set
  properties_cases s = ground arith

  key-store_owner_properties :
      (s : State Disk) → (store_owner_properties lib beyond c user key s).0.key ≡ s.key
  key-store_owner_properties s = ground (arith, properties_cases s)

  settled_tests :
      (s : State Disk)
      → is_settled lib beyond c user s ≡ true
      → let poldata = stored_data c s.store.policy in
        (poldata.username ≡ some user) × (on_whitelist user (stored_settings c poldata) ≡ true)
  unfolding is_settled
  settled_tests s h =
      ground (arith, text_eq→eq (string_of (stored_data c s.store.policy).username) user)

  settled_of_tests :
      (s : State Disk)
      → let poldata = stored_data c s.store.policy in
        poldata.username ≡ some user
        → on_whitelist user (stored_settings c poldata) ≡ true
        → s.store.policy.new_public_key ≡ some s.key.key
        → is_settled lib beyond c user s ≡ true
  unfolding is_settled
  settled_of_tests s named listed own = ground (arith, text_eq_refl user, equals_self beyond s.key)

  new_tests :
      (s : State Disk) (policy : PolicyFetchResponse)
      → CodecLaws c
      → s.store.policy.policy_data ≡ some (c.serialize_policy_data (new_data c user policy))
      → let poldata = stored_data c s.store.policy in
        (poldata.username ≡ some user) × (on_whitelist user (stored_settings c poldata) ≡ true)
  new_tests s policy laws bytes =
      let poldata = stored_data c policy in
      let polval = with_owner user (stored_settings c poldata) in
      let fields = owned_data_fields c user poldata polval in
      let same = data_of_bytes c s.store.policy (owned_data c user poldata polval) laws bytes in
      let read =
        settings_of_value c (owned_data c user poldata polval) polval laws
          (is_device_policy-owned_data c user poldata polval) fields.1 in
      rw same (
        fields.0,
        ap (on_whitelist user) read ∙ on_whitelist-with_owner user (stored_settings c poldata),
      )

  pub signed_succeeds :
      (s : State Disk)
      → ((content : Text) → is_some (NssUtil.sign lib content key) ≡ true)
      → (store_owner_properties lib beyond c user key s).1 ≡ none
  unfolding store_owner_properties put_signed
  signed_succeeds s signs =
      ground (arith, signs (c.serialize_policy_data (new_data c user s.store.policy)))

  -- A call that succeeds leaves a policy that names the user as the owner and lists the user, with
  -- the service's key untouched.
  pub store_owner_properties_lem :
      (s : State Disk)
      → CodecLaws c
      → let r = store_owner_properties lib beyond c user key s in
        r.1 ≡ none
        → let poldata = stored_data c r.0.store.policy in
          (poldata.username ≡ some user)
          × (on_whitelist user (stored_settings c poldata) ≡ true)
          × (r.0.key ≡ s.key)
  store_owner_properties_lem s laws h = elim (properties_cases s) [
    | inl (settled, same) ↦ rw same (ground (arith, settled_tests s settled))
    | inr (inl (_, _, own, _, bytes)) ↦
        let tests =
          new_tests (store_owner_properties lib beyond c user key s).0 s.store.policy laws bytes in
        (tests.0, tests.1, own)
    | inr (inr (failed, _)) ↦ ground arith
  ]

  settled_stays :
      (s : State Disk)
      → is_settled lib beyond c user s ≡ true
      → store_owner_properties lib beyond c user key s ≡ (s, none)
  unfolding store_owner_properties
  settled_stays s h = rw (h, store_owner_properties)

  settles :
      (s : State Disk)
      → CodecLaws c
      → let r = store_owner_properties lib beyond c user key s in
        r.1 ≡ none → is_settled lib beyond c user r.0 ≡ true
  settles s laws h = elim (properties_cases s) [
    | inl (settled, same) ↦ rw same settled
    | inr (inl (_, _, own, public, bytes)) ↦
        let r = store_owner_properties lib beyond c user key s in
        let tests = new_tests r.0 s.store.policy laws bytes in
        settled_of_tests r.0 tests.0 tests.1 (public ∙ ap (λ (k : PolicyKey). some k.key) (sym own))
    | inr (inr (failed, _)) ↦ ground arith
  ]

  -- Storing the owner a second time finds nothing to do.
  pub store_owner_properties_again :
      (s : State Disk)
      → CodecLaws c
      → let r = store_owner_properties lib beyond c user key s in
        r.1 ≡ none → store_owner_properties lib beyond c user key r.0 ≡ (r.0, none)
  store_owner_properties_again s laws h = settled_stays _ (settles s laws h)

module _ {Disk : Type 0} (lib : NssLibrary) (beyond : Beyond) (c : Codec) where
  -- An owner without the private key is let in only while the key is being replaced, and the key
  -- object is never touched by a login.
  pub check_and_handle_owner_login_lem :
      (mitigate : Bool) (user : Text) (slot : ℕ) (d : DeviceService Disk)
      → let r = check_and_handle_owner_login lib beyond c mitigate user slot d in
        (r.success ≡ true
          → r.is_owner ≡ true
          → (is_some (NssUtil.get_private_key_for_user lib d.state.key.key slot) ≡ true)
            ⊎ ((mitigate ≡ true) × (r.service.mitigating ≡ true)))
        × (r.service.state.key ≡ d.state.key)
  unfolding check_and_handle_owner_login mitigate_if_lost login_with_key store_owner_properties
      put_signed
  check_and_handle_owner_login_lem mitigate user slot d = ground arith

  abbrev Taken : Text → DeviceService Disk → DeviceService Disk → Bool → Type 0
  Taken der d d' taken =
      (taken ≡ true
        → (d'.state.key.key ≡ der)
          × (d.state.key.have_checked_disk ≡ true)
          × ((d.mitigating ≡ true) ⊎ (is_populated d.state.key ≡ false)))
      × (taken ≡ false → d' ≡ d)

  take_mitigating :
      (der : Text) (d d' : DeviceService Disk) (taken : Bool)
      → d.mitigating ≡ true
      → take_owner_key lib beyond c der d ≡ done (d', taken)
      → Taken der d d' taken
  unfolding take_owner_key populate_from_buffer clobber_compromised_key
  take_mitigating der d d' taken m h = ground arith

  take_first :
      (der : Text) (d d' : DeviceService Disk) (taken : Bool)
      → d.mitigating ≡ false
      → take_owner_key lib beyond c der d ≡ done (d', taken)
      → Taken der d d' taken
  unfolding take_owner_key populate_from_buffer
  take_first der d d' taken m h = ground arith

  take_owner_key-Taken :
      (der : Text) (d d' : DeviceService Disk) (taken : Bool)
      → take_owner_key lib beyond c der d ≡ done (d', taken)
      → Taken der d d' taken
  take_owner_key-Taken der d d' taken h = elim (Bool-cases d.mitigating) [
    | inl m ↦ take_mitigating der d d' taken m h
    | inr m ↦ take_first der d d' taken m h
  ]

  key-store_owner :
      (user : Text) (key : ℕ) (d : DeviceService Disk)
      → (store_owner lib beyond c user key d).state.key ≡ d.state.key
  unfolding store_owner post_persist_key post_persist_policy
  key-store_owner user key d =
      let kept = key-store_owner_properties lib beyond c user key d.state in ground arith

  -- A generated key becomes the device's key only for a user who holds its private half. While no key
  -- is being replaced, it does so only on a device without a key; a refusal leaves everything as it
  -- was.
  pub validate_and_store_owner_key_lem :
      (user buf : Text) (slot : ℕ) (d d' : DeviceService Disk) (stored : Bool)
      → validate_and_store_owner_key lib beyond c user buf slot d ≡ done (d', stored)
      → (stored ≡ true
          → (d'.state.key.key ≡ buf)
            × (is_some (NssUtil.get_private_key_for_user lib buf slot) ≡ true)
            × (d.state.key.have_checked_disk ≡ true)
            × ((d.mitigating ≡ true) ⊎ (is_populated d.state.key ≡ false)))
        × (stored ≡ false → d' ≡ d)
  unfolding validate_and_store_owner_key blob_from_buffer
  validate_and_store_owner_key_lem user buf slot d d' stored h =
      elim (Option-cases (NssUtil.get_private_key_for_user lib buf slot)) [
        | inl e ↦ ground arith
        | inr (key, e) ↦
            let ((t, taken), e₁, e₂) =
              >>=-eq-done (take_owner_key lib beyond c buf d)
                (λ r.
                  done
                    (if r.1 then (store_owner lib beyond c user key r.0, true) else (r.0, false)))
                (rw (e, validate_and_store_owner_key) at h) in
            ground (arith, take_owner_key-Taken buf d t taken e₁, key-store_owner user key t)
      ]
