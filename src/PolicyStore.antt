-- ===== src/PolicyStore.antt =====
-- policy_store.h and policy_store.cc: the policy in memory and its file.
pub mod Examples
pub mod Storage
use chromiumos_platform_logi.Prelude.{
  ◌≡◌, Bool, true, false, not, Option, none, some, List, [], ◌∷◌, is_empty, Text, codes,
  if◌then◌else◌,
}
use chromiumos_platform_logi.Platform.Files.{FileSystem}
use chromiumos_platform_logi.Platform.Messages.{PolicyFetchResponse, empty_response, Codec}
use chromiumos_platform_logi.SystemUtils.{atomic_file_write}

abbrev pub prefs_file_name : Text
prefs_file_name = codes "preferences"

pub record PolicyStore : Type 0 where
  pub policy_path : Text
  pub policy : PolicyFetchResponse

unfoldable pub new : Text → PolicyStore
new path = record { policy_path = path; policy = empty_response }

-- `Clear` and a merge into the empty message leave a copy.
unfoldable pub set : PolicyStore → PolicyFetchResponse → PolicyStore
set s policy = record s { policy = policy }

-- The store, the disk and the result of a load.
pub record Loaded (Disk : Type 0) : Type 0 where
  pub store : PolicyStore
  pub disk : Disk
  pub success : Bool

module _ {Disk : Type 0} (fs : FileSystem Disk) where
  unfoldable pub defunct_prefs_file_present : PolicyStore → Disk → Bool
  defunct_prefs_file_present s d =
      fs.path_exists d (fs.append (fs.dir_name s.policy_path) prefs_file_name)

  -- What the parser leaves behind is in memory also where it fails; then the file is deleted.
  unfoldable pub parse_stored : Codec → PolicyStore → Disk → Text → Loaded Disk
  parse_stored c s d content =
      let (policy, parsed) = c.parse_response content in
      if parsed then record { store = set s policy; disk = d; success = true } else record {
        store = set s policy;
        disk = (fs.delete d s.policy_path false).0;
        success = false;
      }

  unfoldable pub load_or_create : Codec → PolicyStore → Disk → Loaded Disk
  unfolding parse_stored
  load_or_create c s d =
      let failed : Loaded Disk = record { store = s; disk = d; success = false } in
      let loaded : Loaded Disk = elim (fs.read_file_to_string d s.policy_path) [
        | none ↦ failed
        | some content ↦ if is_empty content then failed else parse_stored c s d content
      ] in
      if fs.path_exists d s.policy_path
      then loaded
      else record { store = s; disk = d; success = true }

  unfoldable pub persist : Codec → PolicyStore → Disk → Disk × Bool
  persist c s d = elim (c.serialize_response s.policy) [
    | none ↦ (d, false)
    | some content ↦ atomic_file_write fs d s.policy_path content
  ]
