-- ===== src/KeygenWorker.antt =====
-- keygen.cc and keygen_worker.cc: the tool that makes the owner's key pair as the user. A fatal log
-- message ends the process.
pub mod Keys
pub mod Examples
use chromiumos_platform_logi.Prelude.{
  ℕ, ◌≡◌, Bool, true, false, not, Option, none, some, List, [], ◌∷◌, Text, if◌then◌else◌, Outcome,
  done, died, ◌>>=◌,
}
use chromiumos_platform_logi.Platform.Files.{FileSystem}
use chromiumos_platform_logi.Platform.Crypto.{NssLibrary}
use chromiumos_platform_logi.NssUtil.{nssdb_subpath, open_user_db, generate_key_pair_for_user}
use chromiumos_platform_logi.PolicyKey
use chromiumos_platform_logi.PolicyKey.{PolicyKey}

-- What NSS leaves of the disk when it has opened, or first made, the database of a home, and when it
-- has put a permanent pair into the database behind a slot.
pub record NssDisk (Disk : Type 0) : Type 0 where
  pub opened : Disk → Text → Disk
  pub generated : Disk → ℕ → Disk

-- NSS writes in the database's folder only, so that another file is there exactly if it was.
pub record NssDiskLaws {Disk : Type 0} (fs : FileSystem Disk) (nss : NssDisk Disk) (file : Text)
    : Type 0 where
  pub opened_keeps :
      (d : Disk) (home : Text) → fs.path_exists (nss.opened d home) file ≡ fs.path_exists d file
  pub generated_keeps :
      (d : Disk) (slot : ℕ) → fs.path_exists (nss.generated d slot) file ≡ fs.path_exists d file

-- `VerifyPathControlledByUser` on base, path and user, with no group allowed.
abbrev pub PathCheck : Type 0 → Type 0
PathCheck Disk = Disk → Text → Text → ℕ → Bool

module _ {Disk : Type 0} (fs : FileSystem Disk) (lib : NssLibrary) (nss : NssDisk Disk) where
  -- `key.Persist() ? 0 : 1`.
  abbrev pub with_code : Disk × Bool → Disk × ℕ
  with_code r = (r.0, if r.1 then 0 else 1)

  -- What is done with the pair, `none` where none could be made.
  unfoldable pub write_pair : PolicyKey → Option ℕ → Disk → Outcome (Disk × ℕ)
  write_pair k none d = died
  write_pair k (some pair) d =
      let (k', populated) = PolicyKey.populate_from_keypair lib k (some pair) in
      if populated then (PolicyKey.persist fs k' d >>= λ r. done (with_code r)) else died

  unfoldable pub with_slot : PolicyKey → Option ℕ → Disk → Outcome (Disk × ℕ)
  unfolding write_pair
  with_slot k none d = died
  with_slot k (some slot) d =
      write_pair k (generate_key_pair_for_user lib slot) (nss.generated d slot)

  unfoldable pub generate_key : PathCheck Disk → ℕ → Text → Text → Disk → Outcome (Disk × ℕ)
  unfolding with_slot
  generate_key controlled_by_user uid file_path user_homedir d =
      let (k, loaded) =
        PolicyKey.populate_from_disk_if_possible fs lib (PolicyKey.new file_path) d in
      let nssdb = fs.append user_homedir nssdb_subpath in
      if not loaded
      then died
      else if PolicyKey.is_populated k
      then died
      else if not (fs.path_exists d nssdb)
      then died
      else if not (controlled_by_user d (fs.dir_name file_path) nssdb uid)
      then died
      else with_slot k (open_user_db lib fs.append user_homedir) (nss.opened d user_homedir)

  -- `main` on the arguments that are no switches.
  unfoldable pub keygen_main : PathCheck Disk → ℕ → List Text → Disk → Outcome (Disk × ℕ)
  unfolding generate_key
  keygen_main controlled_by_user uid (file_path ∷ user_homedir ∷ []) d =
      generate_key controlled_by_user uid file_path user_homedir d
  keygen_main controlled_by_user uid [] d = died
  keygen_main controlled_by_user uid (one ∷ []) d = died
  keygen_main controlled_by_user uid (a ∷ b ∷ more ∷ rest) d = died
