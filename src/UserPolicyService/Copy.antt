-- ===== src/UserPolicyService/Copy.antt =====
-- The key's copy for the browser: user_policy_service.cc `PersistKeyCopy` and `OnKeyPersisted`.
use chromiumos_platform_logi.Prelude.{◌≡◌, ◌≢◌, ◌∙◌, true, some, [], ◌∷◌, ◌++◌, Text, arith}
use chromiumos_platform_logi.Platform.Files.{FileSystem, FileLaws}
use chromiumos_platform_logi.SystemUtils.{atomic_file_write}
use chromiumos_platform_logi.SystemUtils.Atomic.{atomic_file_write_done}
use chromiumos_platform_logi.PolicyKey.{is_populated}
use chromiumos_platform_logi.PolicyService
use chromiumos_platform_logi.PolicyService.{State, key_persisted}
use chromiumos_platform_logi.UserPolicyService.{
  copy_dir_mode, copy_mode, write_copy, persist_key_copy, on_key_persisted,
}

module _ {Disk : Type 0} (fs : FileSystem Disk) where
  -- The disk that the copy's file is written on: its folder has been made and opened.
  abbrev pub prepared : Text → Disk → Disk
  prepared path d =
      let dir = fs.dir_name path in (fs.chmod (fs.create_directory d dir).0 dir copy_dir_mode).0

module _ {Disk : Type 0} (fs : FileSystem Disk) (laws : FileLaws fs) where
  written :
      (path key : Text) (d : Disk)
      → (atomic_file_write fs (prepared fs path d) path key).1 ≡ true
      → fs.read_file_to_string (write_copy fs path key d) path ≡ some key
  unfolding write_copy
  written path key d h =
      laws.chmod_keeps _ path path copy_mode
      ∙ atomic_file_write_done fs laws (prepared fs path d) path key h

  -- Once a populated key is stored, the copy holds the same bytes, provided that its own write
  -- succeeded; and the delegate is told after that, with the disk unchanged since.
  pub on_key_persisted_copies :
      (path : Text) (s : State Disk)
      → path ≢ []
      → s.key.key ≢ []
      → (atomic_file_write fs (prepared fs path s.disk) path s.key.key).1 ≡ true
      → let s' = on_key_persisted fs path s true in
        (fs.read_file_to_string s'.disk path ≡ some s.key.key)
        × (s.has_delegate ≡ true → s'.notices ≡ s.notices ++ key_persisted true ∷ [])
  unfolding on_key_persisted persist_key_copy PolicyService.on_key_persisted is_populated
  on_key_persisted_copies path s named ne h = ground (arith, written path s.key.key s.disk h)
