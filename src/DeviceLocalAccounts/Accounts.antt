-- ===== src/DeviceLocalAccounts/Accounts.antt =====
-- Which accounts have a service after `UpdateDeviceSettings`, and what is purged.
use chromiumos_platform_logi.Prelude.{
  ◌≡◌, refl, ◌∙◌, ap, inl, inr, Bool, true, false, not, ◌&&◌, ◌||◌, is_some, Option, none, some,
  List, [], ◌∷◌, any, keep, is_empty, Text, arith, text_eq, text_eq_iff, text_eq_refl,
  if◌then◌else◌, Bool-cases,
}
use mathlib.Core.Path.{fun_ext}
use chromiumos_platform_logi.Platform.Files.{FileSystem}
use chromiumos_platform_logi.Platform.Messages.{DeviceLocalAccountInfo, ChromeDeviceSettings}
use chromiumos_platform_logi.PolicyStore.{PolicyStore}
use chromiumos_platform_logi.UserPolicyService.{Homes}
use chromiumos_platform_logi.DeviceLocalAccounts.{
  PolicyMap, find, insert, at, account_key, new_policy_map, is_orphan, purge, LocalAccounts,
  update_device_settings, migrate_uppercase_dirs,
}

find-insert :
    (key j : Text) (v : Option PolicyStore) (m : PolicyMap)
    → find j (insert key v m) ≡ (if text_eq key j then some v else find j m)
unfolding find insert
find-insert key j v [] = refl
find-insert key j v ((k, s) ∷ m) = ground (
  arith,
  text_eq_iff key j,
  text_eq_iff k key,
  text_eq_iff k j,
  text_eq_refl key,
  text_eq_refl j,
  find-insert key j v m,
)

-- The text is there and equal.
abbrev pub text_eq_some : Option Text → Text → Bool
text_eq_some none key = false
text_eq_some (some t) key = text_eq t key

module _ (homes : Homes) where
  abbrev pub map_id : Option Text → Option Text
  map_id none = none
  map_id (some id) = some (homes.sanitize_user_name id)

  -- An account goes by the sanitized form of its id, whatever its type; one without id and type, as
  -- old settings have them, by that of its public session id. No account goes by the empty key.
  abbrev pub goes_by : Text → DeviceLocalAccountInfo → Bool
  goes_by key a =
      not (is_empty key)
      && (text_eq_some (map_id a.account_id) key
          || (not (is_some a.account_id)
              && (not (is_some a.account_type)
                  && text_eq_some (map_id a.deprecated_public_session_id) key)))

  -- Some account of the list goes by the key.
  abbrev pub defines : Text → List DeviceLocalAccountInfo → Bool
  defines key = any (goes_by key)

  key_test :
      (k key : Text) → (not (is_empty k) && text_eq k key) ≡ (not (is_empty key) && text_eq k key)
  unfolding text_eq
  key_test [] [] = refl
  key_test [] (b ∷ bs) = refl
  key_test (x ∷ xs) [] = refl
  key_test (x ∷ xs) (b ∷ bs) = refl

  -- The code's key of an account is the one that it goes by.
  account_key-goes_by :
      (key : Text) (a : DeviceLocalAccountInfo)
      → (not (is_empty (account_key homes a)) && text_eq (account_key homes a) key) ≡ goes_by key a
  unfolding account_key
  account_key-goes_by key a = ground (arith, key_test (account_key homes a) key, key_test [] key)

  find-new_policy_map :
      (old : PolicyMap) (accounts : List DeviceLocalAccountInfo) (acc : PolicyMap) (key : Text)
      → find key (new_policy_map homes old accounts acc)
        ≡ (if defines key accounts then some (at (find key old)) else find key acc)
  unfolding new_policy_map any
  find-new_policy_map old [] acc key = refl
  find-new_policy_map old (a ∷ rest) acc key =
      let k = account_key homes a in
      let acc' = if is_empty k then acc else insert k (at (find k old)) acc in
      ground (
        arith,
        find-new_policy_map old rest acc' key,
        find-insert k key (at (find k old)) acc,
        account_key-goes_by key a,
        text_eq_iff k key,
      )

-- The folders deleted one after another, with what is in them.
pub delete_all : {Disk : Type 0} → FileSystem Disk → List Text → Disk → Disk
delete_all fs [] d = d
delete_all fs (s ∷ rest) d = delete_all fs rest (fs.delete d s true).0

module _ {Disk : Type 0} (fs : FileSystem Disk) (homes : Homes) where
  purge-delete_all :
      (m : PolicyMap) (dirs : List Text) (d : Disk)
      → purge fs homes m dirs d ≡ delete_all fs (keep (is_orphan fs homes m) dirs) d
  unfolding purge delete_all keep
  purge-delete_all m [] d = refl
  purge-delete_all m (s ∷ rest) d = elim (Bool-cases (is_orphan fs homes m s)) [
    | inl e ↦ ground (arith, purge-delete_all m rest (fs.delete d s true).0)
    | inr e ↦ ground (arith, purge-delete_all m rest d)
  ]

  -- After an update exactly the accounts of the settings are in the map, each with the service that
  -- it had before, if it had one.
  pub find-update_device_settings :
      (settings : ChromeDeviceSettings) (l : LocalAccounts Disk) (key : Text)
      → find key (update_device_settings fs homes settings l).policy_map ≡ (
          if defines homes key settings.device_local_accounts
          then some (at (find key l.policy_map))
          else none)
  unfolding update_device_settings find
  find-update_device_settings settings l key =
      find-new_policy_map homes l.policy_map settings.device_local_accounts [] key

  -- A folder of a valid account key that the settings do not define.
  abbrev pub undefined_dir : ChromeDeviceSettings → Text → Bool
  undefined_dir settings s =
      homes.is_sanitized_user_name (fs.base_name s)
      && not (defines homes (fs.base_name s) settings.device_local_accounts)

  orphan_undefined :
      (settings : ChromeDeviceSettings) (l : LocalAccounts Disk) (s : Text)
      → is_orphan fs homes (new_policy_map homes l.policy_map settings.device_local_accounts []) s
        ≡ undefined_dir settings s
  unfolding is_orphan find
  orphan_undefined settings l s =
      let known =
        find-new_policy_map homes l.policy_map settings.device_local_accounts [] (fs.base_name s) in
      ground arith

  -- After the migration of upper-case names, the update deletes the folders of valid account keys
  -- that the settings do not define, and no others.
  pub disk-update_device_settings :
      (settings : ChromeDeviceSettings) (l : LocalAccounts Disk)
      → let d = migrate_uppercase_dirs fs homes l.device_local_account_dir l.disk in
        (update_device_settings fs homes settings l).disk
        ≡ delete_all fs
            (keep (undefined_dir settings) (fs.directories d l.device_local_account_dir))
            d
  unfolding update_device_settings
  disk-update_device_settings settings l =
      let d = migrate_uppercase_dirs fs homes l.device_local_account_dir l.disk in
      let dirs = fs.directories d l.device_local_account_dir in
      purge-delete_all (new_policy_map homes l.policy_map settings.device_local_accounts []) dirs d
      ∙ ap (λ (p : Text → Bool). delete_all fs (keep p dirs) d)
          (fun_ext (orphan_undefined settings l))
