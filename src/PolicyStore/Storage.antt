-- ===== src/PolicyStore/Storage.antt =====
-- A stored policy comes back: policy_store.cc `Persist` and `LoadOrCreate`.
use chromiumos_platform_logi.Prelude.{◌≡◌, ◌≢◌, true, some, [], Text, arith}
use chromiumos_platform_logi.Platform.Files.{FileSystem, FileLaws}
use chromiumos_platform_logi.Platform.Messages.{Codec, CodecLaws}
use chromiumos_platform_logi.SystemUtils.Atomic.{atomic_file_write_done}
use chromiumos_platform_logi.PolicyStore.{PolicyStore, set, new, load_or_create, persist}

module _ {Disk : Type 0} (fs : FileSystem Disk) (laws : FileLaws fs) (c : Codec)
    (codec : CodecLaws c) where
  held :
      (s : PolicyStore) (d : Disk) (b : Text)
      → c.serialize_response s.policy ≡ some b
      → (persist fs c s d).1 ≡ true
      → fs.read_file_to_string (persist fs c s d).0 s.policy_path ≡ some b
  unfolding persist
  held s d b e h =
      rw (e, persist) (atomic_file_write_done fs laws d s.policy_path b (rw (e, persist) at h))

  -- A policy whose bytes are not empty, once stored with success, is what a new store of the same
  -- file loads, and the load leaves the disk as it is.
  pub load_or_create-persist :
      (s : PolicyStore) (d : Disk) (b : Text)
      → c.serialize_response s.policy ≡ some b
      → b ≢ []
      → (persist fs c s d).1 ≡ true
      → load_or_create fs c (new s.policy_path) (persist fs c s d).0
        ≡ record { store = s; disk = (persist fs c s d).0; success = true }
  unfolding load_or_create new set
  load_or_create-persist s d b e ne h =
      let kept = held s d b e h in
      let there = laws.exists_of_contents (persist fs c s d).0 s.policy_path b kept in
      ground (arith, kept, there, codec.parse_serialized s.policy b e)
