-- ===== src/PolicyKey/Storage.antt =====
-- The key on disk: policy_key.cc `Persist` and `PopulateFromDiskIfPossible`.
use chromiumos_platform_logi.Prelude.{
  ◌≤◌, ◌≡◌, ◌≢◌, ◌⊎◌, true, false, some, [], length, take-length, arith, done,
}
use chromiumos_platform_logi.Platform.Files.{FileSystem, FileLaws}
use chromiumos_platform_logi.Platform.Crypto.{NssLibrary}
use chromiumos_platform_logi.NssUtil
use chromiumos_platform_logi.SystemUtils.{int_max, ensure_and_return_safe_file_size}
use chromiumos_platform_logi.SystemUtils.Atomic.{atomic_file_write_done}
use chromiumos_platform_logi.PolicyKey.{PolicyKey, new, populate_from_disk_if_possible, persist}

module _ {Disk : Type 0} (fs : FileSystem Disk) (lib : NssLibrary) where
  -- A load reports success in two cases: no file is there and the key is as it was, or the key is
  -- what was read and NSS accepts it.
  pub populate_from_disk_success :
      (k : PolicyKey) (d : Disk)
      → let r = populate_from_disk_if_possible fs lib k d in
        r.1 ≡ true
        → (r.0.have_checked_disk ≡ true)
          × (((fs.path_exists d k.key_file ≡ false) × (r.0.key ≡ k.key))
              ⊎ (NssUtil.check_public_key_blob lib r.0.key ≡ true))
  unfolding populate_from_disk_if_possible
  populate_from_disk_success k d h = ground arith

  -- An existing key file is left alone unless the key was replaced by a rotation or a clobbering.
  pub persist_refuses :
      (k : PolicyKey) (d : Disk)
      → k.have_checked_disk ≡ true
      → k.have_replaced ≡ false
      → fs.path_exists d k.key_file ≡ true
      → persist fs k d ≡ done (d, false)
  unfolding persist
  persist_refuses k d checked kept there = ground arith

module _ {Disk : Type 0} (fs : FileSystem Disk) (laws : FileLaws fs) (lib : NssLibrary) where
  stored :
      (k : PolicyKey) (d d' : Disk)
      → k.key ≢ []
      → persist fs k d ≡ done (d', true)
      → fs.read_file_to_string d' k.key_file ≡ some k.key
  unfolding persist
  stored k d d' ne h = ground (arith, atomic_file_write_done fs laws d k.key_file k.key)

  -- What `Persist` reports as stored, a new object for the same file loads back whole.
  pub populate-persist :
      (k : PolicyKey) (d d' : Disk)
      → k.key ≢ []
      → length k.key ≤ int_max
      → NssUtil.check_public_key_blob lib k.key ≡ true
      → persist fs k d ≡ done (d', true)
      → populate_from_disk_if_possible fs lib (new k.key_file) d'
        ≡ (record (new k.key_file) { have_checked_disk = true; key = k.key }, true)
  unfolding populate_from_disk_if_possible ensure_and_return_safe_file_size new
  populate-persist k d d' ne small valid h =
      let held = stored k d d' ne h in
      ground (
        arith,
        laws.exists_of_contents d' k.key_file k.key held,
        laws.size_of_contents d' k.key_file k.key held,
        laws.read_part d' k.key_file k.key (length k.key) held,
        take-length k.key,
      )
