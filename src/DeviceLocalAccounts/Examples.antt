-- ===== src/DeviceLocalAccounts/Examples.antt =====
-- Two device-local accounts: one with a policy, one that the settings add.
use chromiumos_platform_logi.Prelude.{
  ℕ, ◌≡◌, refl, true, false, Bool, if◌then◌else◌, Option, some, none, is_some, keep, List, [], ◌∷◌,
  ◌++◌, Text, text_eq, any, ◌==◌, codes, done, Outcome,
}
use chromiumos_platform_logi.Platform.Files.{FileSystem}
use chromiumos_platform_logi.Platform.SampleDisk.{SampleDisk, blank_disk, sample_files}
use chromiumos_platform_logi.Platform.SampleCodec.{sample_codec}
use chromiumos_platform_logi.Platform.Messages.{
  PolicyFetchResponse, ChromeDeviceSettings, empty_settings, string_of,
}
use chromiumos_platform_logi.PolicyKey.{verify}
use chromiumos_platform_logi.PolicyStore
use chromiumos_platform_logi.PolicyService.{persist_policy}
use chromiumos_platform_logi.UserPolicyService.{Homes}
use chromiumos_platform_logi.DeviceLocalAccounts.{
  LocalAccounts, PolicyMap, find, at, update_device_settings, migrate_uppercase_dirs, store,
}
use chromiumos_platform_logi.DeviceLocalAccounts.Accounts.{
  delete_all, undefined_dir, disk-update_device_settings,
}
use chromiumos_platform_logi.DeviceLocalAccounts.Policies.{store_lem}
use chromiumos_platform_logi.Samples.{sample_lib, sample_beyond, sample_homes, owner_key}

abbrev accounts : LocalAccounts SampleDisk
accounts = record {
  disk = blank_disk;
  owner_key = owner_key;
  device_local_account_dir = codes "/accounts";
  policy_map = (codes "#kiosk", some (PolicyStore.new (codes "/p"))) ∷ [];
  posted = [];
  replies = [];
}

abbrev settings : ChromeDeviceSettings
settings = record empty_settings {
  device_local_accounts =
      record {
        account_id = some (codes "kiosk");
        account_type = some 0;
        deprecated_public_session_id = none;
      }
      ∷ [];
}

-- The folder of the defined account, one of an account that is gone, and one of no account.
abbrev three_folders : FileSystem SampleDisk
three_folders = record sample_files {
  directories = λ d dir. codes "#kiosk" ∷ codes "#gone" ∷ codes "other" ∷ [];
  base_name = λ path. path;
}

abbrev starts_with_hash : Text → Bool
starts_with_hash [] = false
starts_with_hash (c ∷ cs) = c == b'#'

abbrev hashed : Homes
hashed = record sample_homes { is_sanitized_user_name = starts_with_hash }

only_gone :
    keep
      (undefined_dir three_folders hashed settings)
      (three_folders.directories blank_disk (codes "/accounts"))
    ≡ codes "#gone" ∷ []
unfolding keep any text_eq
only_gone = refl

disk-update_device_settings_example :
    let d = migrate_uppercase_dirs three_folders hashed (codes "/accounts") blank_disk in
    (update_device_settings three_folders hashed settings accounts).disk
    ≡ delete_all three_folders
        (keep
          (undefined_dir three_folders hashed settings)
          (three_folders.directories d (codes "/accounts")))
        d
disk-update_device_settings_example =
    disk-update_device_settings three_folders hashed settings accounts

abbrev signed : PolicyFetchResponse
signed = record {
  policy_data = some (codes "data");
  policy_data_signature = some (codes "K");
  new_public_key = none;
  new_public_key_signature = none;
  other = [];
}

abbrev signed_blob : Text
signed_blob = sample_codec.serialize_to_array signed

abbrev stored : LocalAccounts SampleDisk
stored = record accounts {
  policy_map = (codes "#kiosk", some (record { policy_path = codes "/p"; policy = signed })) ∷ [];
  posted = (codes "#kiosk", persist_policy (some 4)) ∷ [];
}

account_stored :
    store sample_files sample_homes sample_lib sample_beyond sample_codec
      (codes "kiosk")
      signed_blob
      4
      accounts
    ≡ done (stored, true)
unfolding store chromiumos_platform_logi.DeviceLocalAccounts.get_policy_service find
    chromiumos_platform_logi.Prelude.text_eq chromiumos_platform_logi.DeviceLocalAccounts.store_with
    chromiumos_platform_logi.PolicyService.store chromiumos_platform_logi.PolicyService.store_policy
    chromiumos_platform_logi.PolicyService.has_other_key
    chromiumos_platform_logi.DeviceLocalAccounts.put_back
    chromiumos_platform_logi.PolicyService.verify_and_store
    chromiumos_platform_logi.DeviceLocalAccounts.insert verify
    chromiumos_platform_logi.NssUtil.verify
    chromiumos_platform_logi.DeviceLocalAccounts.service_state PolicyStore.set PolicyStore.new
account_stored = refl

store_lem_example :
    (stored.owner_key ≡ owner_key)
    × (true ≡ true
        → (is_some (find (codes "#kiosk") accounts.policy_map) ≡ true)
          × (verify sample_lib owner_key
                (string_of signed.policy_data)
                (string_of signed.policy_data_signature)
              ≡ true)
          × (stored.replies ≡ accounts.replies))
store_lem_example =
    store_lem sample_files sample_homes sample_lib sample_beyond sample_codec (codes "kiosk")
      signed_blob 4 accounts stored true account_stored
