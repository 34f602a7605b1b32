-- ===== src/UserPolicyService.antt =====
-- user_policy_service.cc: a policy service with a key of its own, a copy of it that the browser may
-- read, and a way back to the unmanaged state. user_policy_service_factory.cc: how it is made.
pub mod Examples
pub mod Unmanaged
pub mod Copy
use chromiumos_platform_logi.Prelude.{
  ℕ, ◌≡◌, Bool, true, false, not, ◌&&◌, Option, none, some, List, [], ◌∷◌, ◌++◌, is_some, is_empty,
  Text, codes, if◌then◌else◌, Outcome, done, died, ◌>>=◌,
}
use chromiumos_platform_logi.Platform.Files.{FileSystem}
use chromiumos_platform_logi.Platform.Crypto.{NssLibrary}
use chromiumos_platform_logi.Platform.Messages.{PolicyFetchResponse, PolicyData, Codec, string_of}
use chromiumos_platform_logi.SystemUtils.{remove_file, atomic_file_write}
use chromiumos_platform_logi.PolicyKey
use chromiumos_platform_logi.PolicyKey.{PolicyKey, Beyond, is_populated}
use chromiumos_platform_logi.PolicyStore
use chromiumos_platform_logi.PolicyService
use chromiumos_platform_logi.PolicyService.{
  State, Task, persist_key, persist_policy, failure, parse_error, reply, post_persist_key,
  post_persist_policy,
}

abbrev pub copy_dir_mode : ℕ
copy_dir_mode = 0o711

abbrev pub copy_mode : ℕ
copy_mode = 0o444

module _ {Disk : Type 0} (fs : FileSystem Disk) where
  -- Results are ignored, as in the source.
  unfoldable pub write_copy : Text → Text → Disk → Disk
  write_copy path key d =
      let dir = fs.dir_name path in
      let d₁ = (fs.create_directory d dir).0 in
      let d₂ = (fs.chmod d₁ dir copy_dir_mode).0 in
      let d₃ = (atomic_file_write fs d₂ path key).0 in (fs.chmod d₃ path copy_mode).0

  unfoldable pub persist_key_copy : Text → PolicyKey → Disk → Disk
  persist_key_copy path k d =
      if is_empty path
      then d
      else if is_populated k
      then write_copy path k.key d
      else (remove_file fs d path).0

  -- The override: the copy is there before the delegate hears of it.
  unfoldable pub on_key_persisted : Text → State Disk → Bool → State Disk
  on_key_persisted path s status =
      let copied = if status then persist_key_copy path s.key s.disk else s.disk in
      PolicyService.on_key_persisted (record s { disk = copied }) status

  unfoldable pub persist_key_on_loop : Text → State Disk → Outcome (State Disk)
  persist_key_on_loop path s = do
    (d, status) ← PolicyKey.persist fs s.key s.disk
    done (on_key_persisted path (record s { disk = d }) status)

  unfoldable pub run_task : Codec → Text → State Disk → Task → Outcome (State Disk)
  run_task c path s persist_key = persist_key_on_loop path s
  run_task c path s (persist_policy completion) =
      done (PolicyService.persist_policy_on_loop fs c s completion)

module _ {Disk : Type 0} (lib : NssLibrary) (beyond : Beyond) (c : Codec) where
  unfoldable pub clear_key : State Disk → Outcome (State Disk)
  clear_key s =
      let cleared = PolicyKey.clobber_compromised_key s.key [] >>= λ r.
      done (post_persist_key (record s { key = r.0 })) in
      if is_populated s.key then cleared else done s

  unfoldable pub store_unmanaged :
      PolicyFetchResponse → ℕ → State Disk → Outcome (State Disk × Bool)
  store_unmanaged policy completion s = do
    s' ← clear_key s
    done (
      post_persist_policy (record s' { store = PolicyStore.set s'.store policy }) (some completion),
      true,
    )

  unfoldable pub store : Text → ℕ → ℕ → State Disk → Outcome (State Disk × Bool)
  store blob completion flags s =
      let (policy, parsed) = c.parse_response blob in
      let (policy_data, understood) = c.parse_policy_data (string_of policy.policy_data) in
      if parsed && (is_some policy.policy_data && understood)
      then (if policy_data.unmanaged && not (is_some policy.policy_data_signature)
          then store_unmanaged policy completion s
          else PolicyService.store_policy lib beyond policy completion flags s)
      else done (reply s (failure completion parse_error), false)

abbrev pub policy_name : Text
policy_name = codes "policy"

abbrev pub key_name : Text
key_name = codes "key"

abbrev pub key_copy_dir : Text
key_copy_dir = codes "/var/run/user_policy"

abbrev pub key_copy_file : Text
key_copy_file = codes "policy.pub"

-- `GetDaemonPath` and `SanitizeUserName` of chromeos/cryptohome.h.
pub record Homes : Type 0 where
  pub daemon_path : Text → Text
  pub user_path : Text → Text
  pub sanitize_user_name : Text → Text
  pub is_sanitized_user_name : Text → Bool

pub record UserService (Disk : Type 0) : Type 0 where
  pub state : State Disk
  pub key_copy_path : Text

module _ {Disk : Type 0} (fs : FileSystem Disk) (lib : NssLibrary) (c : Codec) (homes : Homes) where
  -- The service over a loaded key and what could be loaded of the policy; the copy is brought up to
  -- date at once.
  unfoldable pub assemble : Text → Text → PolicyKey → Disk → UserService Disk
  assemble username policy_dir k d =
      let loaded =
        PolicyStore.load_or_create fs c (PolicyStore.new (fs.append policy_dir policy_name)) d in
      let copy =
        key_copy_dir
        ++ (codes "/" ++ (homes.sanitize_user_name username ++ (codes "/" ++ key_copy_file))) in
      record {
        state = record {
          disk = persist_key_copy fs copy k loaded.disk;
          key = k;
          store = loaded.store;
          has_delegate = false;
          posted = [];
          replies = [];
          notices = [];
        };
        key_copy_path = copy;
      }

  -- `UserPolicyServiceFactory::Create`.
  unfoldable pub create : Text → Disk → Disk × Option (UserService Disk)
  create username d =
      let policy_dir = fs.append (homes.daemon_path username) policy_name in
      let (d₁, made) = fs.create_directory d policy_dir in
      let (k, loaded) =
        PolicyKey.populate_from_disk_if_possible fs lib
          (PolicyKey.new (fs.append policy_dir key_name)) d₁ in
      let service = assemble username policy_dir k d₁ in
      if made && loaded then (service.state.disk, some service) else (d₁, none)
