-- ===== src/KeygenWorker/Keys.antt =====
-- What the tool of keygen_worker.cc leaves behind when it comes to its end.
use chromiumos_platform_logi.Prelude.{
  ℕ, ◌≡◌, ◌≢◌, refl, inl, inr, Bool, true, false, Option, none, some, [], Text, arith, done, died,
  is_some, ◌>>=◌, >>=-eq-done, Bool-cases, ◌∙◌,
}
use chromiumos_platform_logi.Platform.Files.{FileSystem, FileLaws}
use chromiumos_platform_logi.Platform.Crypto.{NssLibrary}
use chromiumos_platform_logi.SystemUtils.{remove_file}
use chromiumos_platform_logi.SystemUtils.Atomic.{atomic_file_write_done}
use chromiumos_platform_logi.NssUtil.{nssdb_subpath, open_user_db, generate_key_pair_for_user}
use chromiumos_platform_logi.PolicyKey
use chromiumos_platform_logi.PolicyKey.{PolicyKey}
use chromiumos_platform_logi.KeygenWorker.{
  PathCheck, NssDisk, NssDiskLaws, with_slot, write_pair, generate_key, with_code,
}

module _ {Disk : Type 0} (fs : FileSystem Disk) (lib : NssLibrary) where
  -- The public half of a pair of the user's own slot is in the file, which was not there before.
  abbrev pub IsNewKey : Text → Text → Disk → Disk → Type 0
  IsNewKey file_path user_homedir d d' =
      (fs.path_exists d file_path ≡ false)
      × ((slot pair : ℕ) × (der : Text) × (open_user_db lib fs.append user_homedir ≡ some slot)
          × (generate_key_pair_for_user lib slot ≡ some pair)
          × (lib.export_public_key pair ≡ some der)
          × (der ≢ [] → fs.read_file_to_string d' file_path ≡ some der))

module _ {Disk : Type 0} (fs : FileSystem Disk) (laws : FileLaws fs) (lib : NssLibrary)
    (nss : NssDisk Disk) where
  absurd_died : {r : Disk × ℕ} → died ≡ done r → ⊥
  absurd_died h = cc

  key_persist_lem :
      (k : PolicyKey) (d d' : Disk) (status : Bool)
      → k.have_replaced ≡ false
      → PolicyKey.persist fs k d ≡ done (d', status)
      → (fs.path_exists d k.key_file ≡ true → (status ≡ false) × (d' ≡ d))
        × (status ≡ true → k.key ≢ [] → fs.read_file_to_string d' k.key_file ≡ some k.key)
  unfolding PolicyKey.persist remove_file
  key_persist_lem k d d' status fresh h =
      ground (arith, atomic_file_write_done fs laws d k.key_file k.key)

  from_pair :
      (k : PolicyKey) (pair : ℕ)
      → let (k', populated) = PolicyKey.populate_from_keypair lib k (some pair) in
        (k'.have_replaced ≡ k.have_replaced)
        × (k'.key_file ≡ k.key_file)
        × (populated ≡ true → lib.export_public_key pair ≡ some k'.key)
  unfolding PolicyKey.populate_from_keypair PolicyKey.populate_from_buffer
  from_pair k pair = ground arith

  from_disk :
      (file : Text) (d : Disk)
      → let k = (PolicyKey.populate_from_disk_if_possible fs lib (PolicyKey.new file) d).0 in
        (k.have_replaced ≡ false) × (k.key_file ≡ file)
  unfolding PolicyKey.populate_from_disk_if_possible PolicyKey.take_read PolicyKey.new
  from_disk file d = ground arith

  exit_code_lem :
      (k : PolicyKey) (d d' : Disk) (code : ℕ)
      → k.have_replaced ≡ false
      → (PolicyKey.persist fs k d >>= λ r. done (with_code fs lib nss r)) ≡ done (d', code)
      → (fs.path_exists d k.key_file ≡ true → (code ≡ 1) × (d' ≡ d))
        × (code ≡ 0 → k.key ≢ [] → fs.read_file_to_string d' k.key_file ≡ some k.key)
  exit_code_lem k d d' code fresh h =
      let ((d₁, status), e, e') =
        >>=-eq-done (PolicyKey.persist fs k d) (λ r. done (with_code fs lib nss r)) h in
      let kept = key_persist_lem k d d₁ status fresh e in ground (arith, kept, e')

  write_pair_lem :
      (k : PolicyKey) (made : Option ℕ) (d d' : Disk) (code : ℕ)
      → k.have_replaced ≡ false
      → write_pair fs lib nss k made d ≡ done (d', code)
      → (is_some made ≡ true)
        × (fs.path_exists d k.key_file ≡ true → (code ≡ 1) × (d' ≡ d))
        × (code ≡ 0
            → (pair : ℕ) × (der : Text) × (made ≡ some pair)
              × (lib.export_public_key pair ≡ some der)
              × (der ≢ [] → fs.read_file_to_string d' k.key_file ≡ some der))
  unfolding write_pair
  write_pair_lem k none d d' code fresh h = cc
  write_pair_lem k (some pair) d d' code fresh h =
      let r = PolicyKey.populate_from_keypair lib k (some pair) in
      let (unreplaced, file, exported) = from_pair k pair in
      elim (Bool-cases r.1) [
        | inr e ↦ absurd (absurd_died (rw (e, write_pair) at h))
        | inl e ↦
            let written =
              exit_code_lem r.0 d d' code (unreplaced ∙ fresh) (rw (e, write_pair) at h) in
            (
              refl,
              rw file at written.0,
              λ zero_code. (pair, r.0.key, refl, exported e, rw file at (written.1 zero_code)),
            )
      ]

  with_slot_lem :
      (k : PolicyKey) (opened : Option ℕ) (d d' : Disk) (code : ℕ)
      → with_slot fs lib nss k opened d ≡ done (d', code)
      → (slot : ℕ) × (opened ≡ some slot)
        × (write_pair fs lib nss k (generate_key_pair_for_user lib slot) (nss.generated d slot)
            ≡ done (d', code))
  unfolding with_slot
  with_slot_lem k none d d' code h = cc
  with_slot_lem k (some slot) d d' code h = (slot, refl, h)

  -- The file was not there if the loaded key is none: an empty file is no key.
  abbrev loaded_key : Text → Disk → PolicyKey
  loaded_key file d = (PolicyKey.populate_from_disk_if_possible fs lib (PolicyKey.new file) d).0

  absent_lem :
      (file : Text) (d left d' : Disk) (code : ℕ)
      → (fs.path_exists d file ≡ true → (code ≡ 1) × (d' ≡ left))
      → code ≡ 0
      → fs.path_exists d file ≡ false
  absent_lem file d left d' code there e = ground arith

  module _ (controlled_by_user : PathCheck Disk) (uid : ℕ) (file home : Text) (d : Disk) where
    -- A run that comes to its end passed every check.
    checks_passed :
        (d' : Disk) (code : ℕ)
        → generate_key fs lib nss controlled_by_user uid file home d ≡ done (d', code)
        → (controlled_by_user d (fs.dir_name file) (fs.append home nssdb_subpath) uid ≡ true)
          × (with_slot fs lib nss
                (loaded_key file d)
                (open_user_db lib fs.append home)
                (nss.opened d home)
              ≡ done (d', code))
    unfolding generate_key
    checks_passed d' code h = ground arith

    -- What NSS leaves of the disk before the key is written.
    abbrev pub used : ℕ → Disk
    used slot = nss.generated (nss.opened d home) slot

    -- By the laws of the file system and what NSS keeps of it: a tool that comes to its end was given
    -- a folder that the user controls, and NSS has made a pair in the user's slot. If the key file
    -- was there, the tool ends with 1 and does no more, so that the pair stays in the database; and
    -- it ends with 0 only if the file was not there and now holds the public key of that pair, unless
    -- the export of the key is empty.
    pub generate_key_lem :
        NssDiskLaws fs nss file
        → (d' : Disk) (code : ℕ)
        → generate_key fs lib nss controlled_by_user uid file home d ≡ done (d', code)
        → (controlled_by_user d (fs.dir_name file) (fs.append home nssdb_subpath) uid ≡ true)
          × ((slot : ℕ) × (open_user_db lib fs.append home ≡ some slot)
              × (is_some (generate_key_pair_for_user lib slot) ≡ true)
              × (fs.path_exists d file ≡ true → (code ≡ 1) × (d' ≡ used slot)))
          × (code ≡ 0 → IsNewKey fs lib file home d d')
    generate_key_lem keeps d' code h =
        let (controlled, goes_on) = checks_passed d' code h in
        let (slot, opened, written) =
          with_slot_lem (loaded_key file d) (open_user_db lib fs.append home) (nss.opened d home) d'
            code goes_on in
        let (unreplaced, same_file) = from_disk file d in
        let (paired, there, made) =
          write_pair_lem (loaded_key file d) (generate_key_pair_for_user lib slot) (used slot) d'
            code unreplaced written in
        let stays : fs.path_exists (used slot) file ≡ fs.path_exists d file =
          keeps.generated_keeps (nss.opened d home) slot ∙ keeps.opened_keeps d home in
        let refuses : fs.path_exists d file ≡ true → (code ≡ 1) × (d' ≡ used slot) =
          rw stays at (rw same_file at there) in
        (
          controlled,
          (slot, opened, paired, refuses),
          λ zero_code.
              let (pair, der, e, exported, kept) = made zero_code in
              (
                absent_lem file d (used slot) d' code refuses zero_code,
                (slot, pair, der, opened, e, exported, rw same_file at kept),
              ),
        )
