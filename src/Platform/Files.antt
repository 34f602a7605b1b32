-- ===== src/Platform/Files.antt =====
-- base/file_util.h and base/files/file_path.h, chmod(2). A disk is any type; a call that may change
-- it returns the new one.
use chromiumos_platform_logi.Prelude.{
  ℕ, ◌≡◌, ◌≢◌, Bool, true, false, Option, none, some, List, length, take, Text,
}

pub record FileSystem (Disk : Type 0) : Type 0 where
  pub path_exists : Disk → Text → Bool
  pub get_file_size : Disk → Text → Option ℕ
  pub read_file : Disk → Text → ℕ → Option Text  -- at most so many bytes; none for -1
  pub read_file_to_string : Disk → Text → Option Text
  pub write_file : Disk → Text → Text → Disk × Option ℕ  -- bytes written; none for -1
  pub create_temporary_file_in_dir : Disk → Text → Disk × Option Text
  pub create_new_temp_directory : Disk → Disk × Option Text
  pub replace_file : Disk → Text → Text → Disk × Bool
  pub delete : Disk → Text → Bool → Disk × Bool
  pub create_directory : Disk → Text → Disk × Bool
  pub chmod : Disk → Text → ℕ → Disk × Bool
  pub directories : Disk → Text → List Text
  pub dir_name : Text → Text
  pub base_name : Text → Text
  pub append : Text → Text → Text

-- The documented behaviour that the theorems about stored files rely on.
pub record FileLaws {Disk : Type 0} (fs : FileSystem Disk) : Type 0 where
  pub exists_of_contents :
      (d : Disk) (p b : Text) → fs.read_file_to_string d p ≡ some b → fs.path_exists d p ≡ true
  pub size_of_contents :
      (d : Disk) (p b : Text)
      → fs.read_file_to_string d p ≡ some b
      → fs.get_file_size d p ≡ some (length b)
  pub read_part :
      (d : Disk) (p b : Text) (n : ℕ)
      → fs.read_file_to_string d p ≡ some b
      → fs.read_file d p n ≡ some (take n b)
  -- A temporary file is a new one.
  pub temp_new :
      (d : Disk) (dir t : Text)
      → (fs.create_temporary_file_in_dir d dir).1 ≡ some t
      → fs.read_file_to_string d t ≡ none
  pub temp_keeps :
      (d : Disk) (dir p b : Text)
      → fs.read_file_to_string d p ≡ some b
      → fs.read_file_to_string (fs.create_temporary_file_in_dir d dir).0 p ≡ some b
  pub write_keeps :
      (d : Disk) (q b p : Text)
      → p ≢ q
      → fs.read_file_to_string (fs.write_file d q b).0 p ≡ fs.read_file_to_string d p
  pub write_whole :
      (d : Disk) (q b : Text)
      → (fs.write_file d q b).1 ≡ some (length b)
      → fs.read_file_to_string (fs.write_file d q b).0 q ≡ some b
  -- rename(2) replaces the target in one step or does nothing.
  pub replace_moves :
      (d : Disk) (from to : Text)
      → (fs.replace_file d from to).1 ≡ true
      → fs.read_file_to_string (fs.replace_file d from to).0 to ≡ fs.read_file_to_string d from
  pub replace_refused :
      (d : Disk) (from to p : Text)
      → (fs.replace_file d from to).1 ≡ false
      → fs.read_file_to_string (fs.replace_file d from to).0 p ≡ fs.read_file_to_string d p
  pub chmod_keeps :
      (d : Disk) (q p : Text) (mode : ℕ)
      → fs.read_file_to_string (fs.chmod d q mode).0 p ≡ fs.read_file_to_string d p
  pub replace_keeps :
      (d : Disk) (from to p : Text)
      → p ≢ from
      → p ≢ to
      → fs.read_file_to_string (fs.replace_file d from to).0 p ≡ fs.read_file_to_string d p
  -- Deleting a file, not a folder.
  pub delete_keeps :
      (d : Disk) (q p : Text)
      → p ≢ q
      → fs.read_file_to_string (fs.delete d q false).0 p ≡ fs.read_file_to_string d p
