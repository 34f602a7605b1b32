-- ===== src/DevicePolicyService/Properties.antt =====
-- The owner in the stored policy: `StoreOwnerProperties` and `GivenUserIsOwner` of
-- device_policy_service.cc.
use chromiumos_platform_logi.Prelude.{
  ℕ, Bool, true, false, not, ◌&&◌, Option, none, some, [], ◌∷◌, ◌++◌, is_some, any, Text, codes,
  text_eq, if◌then◌else◌,
}
use chromiumos_platform_logi.Platform.Crypto.{NssLibrary}
use chromiumos_platform_logi.Platform.Messages.{
  PolicyFetchResponse, PolicyData, ChromeDeviceSettings, Codec, string_of, empty_policy_data,
  empty_settings,
}
use chromiumos_platform_logi.NssUtil
use chromiumos_platform_logi.NssUtil.{blob_from_buffer}
use chromiumos_platform_logi.PolicyKey
use chromiumos_platform_logi.PolicyKey.{PolicyKey, Beyond, is_populated}
use chromiumos_platform_logi.PolicyStore
use chromiumos_platform_logi.PolicyService.{State, Error, illegal_pubkey}

abbrev pub device_policy_type : Text
device_policy_type = codes "google/chromeos/device"

abbrev pub sign_error : Error
sign_error = record {
  code = illegal_pubkey;
  message = codes "Could not sign policy containing new owner data.";
}

-- What `StoreOwnerProperties` starts from: the stored policy data and settings, if they are device
-- policy. A failed parse is not noticed, and leaves what the parser left.
unfoldable pub stored_data : Codec → PolicyFetchResponse → PolicyData
stored_data c policy = elim policy.policy_data [
  | none ↦ empty_policy_data
  | some bytes ↦ (c.parse_policy_data bytes).0
]

unfoldable pub is_device_policy : PolicyData → Bool
is_device_policy poldata =
    is_some poldata.policy_type && text_eq (string_of poldata.policy_type) device_policy_type

unfoldable pub stored_settings : Codec → PolicyData → ChromeDeviceSettings
stored_settings c poldata =
    let parsed : ChromeDeviceSettings = elim poldata.policy_value [
      | none ↦ empty_settings
      | some bytes ↦ (c.parse_settings bytes).0
    ] in
    if is_device_policy poldata then parsed else empty_settings

unfoldable pub on_whitelist : Text → ChromeDeviceSettings → Bool
on_whitelist user polval = any (λ u. text_eq user u) polval.user_whitelist

-- Adds the owner, and opens the device to new users where the policy says nothing of them.
unfoldable pub with_owner : Text → ChromeDeviceSettings → ChromeDeviceSettings
with_owner user polval = if on_whitelist user polval then polval else record polval {
  user_whitelist = polval.user_whitelist ++ user ∷ [];
  allow_new_users = elim polval.allow_new_users [ none ↦ some true | some b ↦ some b ];
}

-- The policy data that names the owner and holds the settings.
unfoldable pub owned_data : Codec → Text → PolicyData → ChromeDeviceSettings → PolicyData
owned_data c user poldata polval = record poldata {
  policy_type = if is_device_policy poldata then poldata.policy_type else some device_policy_type;
  username = some user;
  policy_value = some (c.serialize_settings polval);
}

module _ {Disk : Type 0} (lib : NssLibrary) (beyond : Beyond) (c : Codec) where
  -- Whether the stored policy already names this owner under the key in use.
  unfoldable pub is_settled : Text → State Disk → Bool
  is_settled user s =
      let poldata = stored_data c s.store.policy in
      is_some poldata.username
      && (text_eq (string_of poldata.username) user
          && (on_whitelist user (stored_settings c poldata)
              && PolicyKey.equals beyond s.key (string_of s.store.policy.new_public_key)))

  unfoldable pub put_signed : State Disk → Text → Option Text → State Disk × Option Error
  put_signed s new_data signature = elim signature [
    | none ↦ (s, some sign_error)
    | some sig ↦ (
      record s {
        store = PolicyStore.set s.store (record (s.store.policy) {
          policy_data = some new_data;
          policy_data_signature = some sig;
          new_public_key = some s.key.key;
        });
      },
      none,
    )
  ]

  -- The error that is set, `none` for the result true.
  unfoldable pub store_owner_properties : Text → ℕ → State Disk → State Disk × Option Error
  store_owner_properties user signing_key s =
      let poldata = stored_data c s.store.policy in
      let new_data =
        c.serialize_policy_data
          (owned_data c user poldata (with_owner user (stored_settings c poldata))) in
      if is_settled user s
      then (s, none)
      else put_signed s new_data (NssUtil.sign lib new_data signing_key)

module _ {Disk : Type 0} (c : Codec) where
  unfoldable pub given_user_is_owner : Text → State Disk → Bool
  given_user_is_owner user s = elim s.store.policy.policy_data [
    | none ↦ false
    | some bytes ↦
        let (poldata, parsed) = c.parse_policy_data bytes in
        parsed
        && (not (is_some poldata.request_token)
            && (is_some poldata.username && text_eq (string_of poldata.username) user))
  ]
