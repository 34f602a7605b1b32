-- ===== src/DeviceLocalAccounts.antt =====
-- device_local_account_policy_service.cc: one policy service for each account that the device
-- settings define. All of them verify with the device owner's key, which the state holds.
pub mod Examples
pub mod Accounts
pub mod Policies
use chromiumos_platform_logi.Prelude.{
  ℕ, ◌+◌, ◌≤◌, ◌≡◌, Bool, true, false, not, ◌&&◌, ◌||◌, Option, none, some, List, [], ◌∷◌, ◌++◌,
  map, is_some, is_empty, any, keep, Text, codes, text_eq, leb, if◌then◌else◌, Outcome, done, died,
  ◌>>=◌,
}
use chromiumos_platform_logi.Platform.Files.{FileSystem}
use chromiumos_platform_logi.Platform.Crypto.{NssLibrary}
use chromiumos_platform_logi.Platform.Messages.{
  DeviceLocalAccountInfo, ChromeDeviceSettings, Codec, string_of,
}
use chromiumos_platform_logi.PolicyKey.{PolicyKey, Beyond}
use chromiumos_platform_logi.PolicyStore
use chromiumos_platform_logi.PolicyStore.{PolicyStore}
use chromiumos_platform_logi.PolicyService
use chromiumos_platform_logi.PolicyService.{State, Task, Reply, failure, Error, invalid_email}
use chromiumos_platform_logi.UserPolicyService.{Homes}

abbrev pub policy_dir : Text
policy_dir = codes "policy"

abbrev pub policy_file_name : Text
policy_file_name = codes "policy"

abbrev pub account_error : Error
account_error = record { code = invalid_email; message = codes "Invalid device-local account" }

-- The map by account key; a service that was not made yet is `none`.
abbrev pub PolicyMap : Type 0
PolicyMap = List (Text × Option PolicyStore)

unfoldable pub find : Text → PolicyMap → Option (Option PolicyStore)
find key [] = none
find key ((k, s) ∷ m) = if text_eq k key then some s else find key m

unfoldable pub insert : Text → Option PolicyStore → PolicyMap → PolicyMap
insert key v [] = (key, v) ∷ []
insert key v ((k, s) ∷ m) = if text_eq k key then (key, v) ∷ m else (k, s) ∷ insert key v m

-- `operator[]` for reading: a missing entry is a null service.
abbrev pub at : Option (Option PolicyStore) → Option PolicyStore
at none = none
at (some s) = s

-- The service's state; its tasks are tagged with the account they are for.
pub record LocalAccounts (Disk : Type 0) : Type 0 where
  pub device_local_account_dir : Text
  pub policy_map : PolicyMap
  pub disk : Disk
  pub owner_key : PolicyKey
  pub posted : List (Text × Task)
  pub replies : List Reply

-- `StringToLowerASCII`.
unfoldable pub to_lower : ℕ → ℕ
to_lower ch = if leb b'A' ch && leb ch b'Z' then ch + 32 else ch

unfoldable pub string_to_lower_ascii : Text → Text
unfolding to_lower
string_to_lower_ascii = map to_lower

module _ (homes : Homes) where
  -- The key of an account of the settings, empty for one that is passed over.
  unfoldable pub account_key : DeviceLocalAccountInfo → Text
  account_key a = elim a.account_id [
    | some id ↦ homes.sanitize_user_name id
    | none ↦ elim a.account_type [
      | some _ ↦ []
      | none ↦ elim a.deprecated_public_session_id [
        | some id ↦ homes.sanitize_user_name id
        | none ↦ []
      ]
    ]
  ]

  -- The loop of `UpdateDeviceSettings`, over the map so far.
  unfoldable pub new_policy_map : PolicyMap → List DeviceLocalAccountInfo → PolicyMap → PolicyMap
  new_policy_map old [] acc = acc
  new_policy_map old (a ∷ rest) acc =
      let key = account_key a in
      new_policy_map old rest (if is_empty key then acc else insert key (at (find key old)) acc)

module _ {Disk : Type 0} (fs : FileSystem Disk) (homes : Homes) where
  -- The folders are those that are there when the enumeration begins.
  unfoldable pub migrate_dirs : List Text → Disk → Disk
  migrate_dirs [] d = d
  migrate_dirs (subdir ∷ rest) d =
      let upper = fs.base_name subdir in
      let lower = string_to_lower_ascii upper in
      let moves = homes.is_sanitized_user_name lower && not (text_eq lower upper) in
      migrate_dirs rest
        (if moves then (fs.replace_file d subdir (fs.append (fs.dir_name subdir) lower)).0 else d)

  unfoldable pub migrate_uppercase_dirs : Text → Disk → Disk
  migrate_uppercase_dirs dir d = migrate_dirs (fs.directories d dir) d

  -- A folder that is an account's and whose account is no longer defined.
  unfoldable pub is_orphan : PolicyMap → Text → Bool
  is_orphan m subdir =
      homes.is_sanitized_user_name (fs.base_name subdir)
      && not (is_some (find (fs.base_name subdir) m))

  unfoldable pub purge : PolicyMap → List Text → Disk → Disk
  purge m [] d = d
  purge m (subdir ∷ rest) d =
      purge m rest (if is_orphan m subdir then (fs.delete d subdir true).0 else d)

  unfoldable pub update_device_settings :
      ChromeDeviceSettings → LocalAccounts Disk → LocalAccounts Disk
  update_device_settings settings l =
      let m = new_policy_map homes l.policy_map settings.device_local_accounts [] in
      let d = migrate_uppercase_dirs l.device_local_account_dir l.disk in
      record l { policy_map = m; disk = purge m (fs.directories d l.device_local_account_dir) d }

  -- The accounts afterwards, and the account's store if there is one.
  unfoldable pub make_service :
      Codec → Text → LocalAccounts Disk → LocalAccounts Disk × Option PolicyStore
  make_service c key l =
      let path =
        fs.append (fs.append (fs.append l.device_local_account_dir key) policy_dir)
          policy_file_name in
      let (d, made) = fs.create_directory l.disk (fs.dir_name path) in
      let loaded = PolicyStore.load_or_create fs c (PolicyStore.new path) d in
      if made
      then (
        record l { disk = loaded.disk; policy_map = insert key (some loaded.store) l.policy_map },
        some loaded.store,
      )
      else (record l { disk = d }, none)

  unfoldable pub get_policy_service :
      Codec → Text → LocalAccounts Disk → LocalAccounts Disk × Option PolicyStore
  get_policy_service c account_id l =
      let key = homes.sanitize_user_name account_id in
      elim (find key l.policy_map) [
        | none ↦ (l, none)
        | some entry ↦ elim entry [ some store ↦ (l, some store) | none ↦ make_service c key l ]
      ]

  -- The account's service as a state of its own: it has no delegate.
  unfoldable pub service_state : LocalAccounts Disk → PolicyStore → State Disk
  service_state l store = record {
    disk = l.disk;
    key = l.owner_key;
    store = store;
    has_delegate = false;
    posted = [];
    replies = l.replies;
    notices = [];
  }

  unfoldable pub put_back : Text → LocalAccounts Disk → State Disk → LocalAccounts Disk
  put_back key l s = record l {
    disk = s.disk;
    owner_key = s.key;
    policy_map = insert key (some s.store) l.policy_map;
    posted = l.posted ++ map (λ t. (key, t)) s.posted;
    replies = s.replies;
  }

  unfoldable pub store_with :
      NssLibrary
      → Beyond
      → Codec
      → Text
      → Text
      → ℕ
      → LocalAccounts Disk
      → PolicyStore
      → Outcome (LocalAccounts Disk × Bool)
  store_with lib beyond c key blob completion l store =
      PolicyService.store lib beyond c blob completion 0 (service_state l store) >>= λ r.
      done (put_back key l r.0, r.1)

  -- `Store`: no flag allows a change of the key.
  unfoldable pub store :
      NssLibrary
      → Beyond
      → Codec
      → Text
      → Text
      → ℕ
      → LocalAccounts Disk
      → Outcome (LocalAccounts Disk × Bool)
  store lib beyond c account_id blob completion l =
      let (l', found) = get_policy_service c account_id l in
      elim found [
        | none ↦
            done
              (record l' { replies = l'.replies ++ failure completion account_error ∷ [] }, false)
        | some s ↦
            store_with lib beyond c (homes.sanitize_user_name account_id) blob completion l' s
      ]

  unfoldable pub retrieve :
      Codec → Text → LocalAccounts Disk → LocalAccounts Disk × Option (Text × Bool)
  retrieve c account_id l =
      let (l', found) = get_policy_service c account_id l in
      elim found [
        | none ↦ (l', none)
        | some s ↦ (l', some (PolicyService.retrieve c (service_state l' s)))
      ]
