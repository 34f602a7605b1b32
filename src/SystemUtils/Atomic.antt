-- ===== src/SystemUtils/Atomic.antt =====
-- Whoever reads a file around an atomic write sees the old contents or the new.
use chromiumos_platform_logi.Prelude.{
  ◌≡◌, ◌≢◌, refl, ◌⊎◌, inl, inr, true, false, Option, none, some, Text, arith, Option-cases,
}
use chromiumos_platform_logi.Platform.Files.{FileSystem, FileLaws}
use chromiumos_platform_logi.SystemUtils.{publish, fill_and_publish, atomic_file_write, atomic_mode}

module _ {Disk : Type 0} (fs : FileSystem Disk) (laws : FileLaws fs) where
  open fs use {read_file_to_string}

  publish_contents :
      (d : Disk) (scratch file content : Text)
      → read_file_to_string d scratch ≡ some content
      → (read_file_to_string (publish fs d scratch file).0 file ≡ some content)
        ⊎ ((read_file_to_string (publish fs d scratch file).0 file ≡ read_file_to_string d file)
            × ((publish fs d scratch file).1 ≡ false))
  unfolding publish
  publish_contents d scratch file content h = ground (
    arith,
    laws.replace_moves d scratch file,
    laws.replace_refused d scratch file file,
    laws.chmod_keeps (fs.replace_file d scratch file).0 file file atomic_mode,
  )

  fill_contents :
      (d : Disk) (scratch file content : Text)
      → file ≢ scratch
      → let r = fill_and_publish fs d scratch file content in
        (read_file_to_string r.0 file ≡ some content)
        ⊎ ((read_file_to_string r.0 file ≡ read_file_to_string d file) × (r.1 ≡ false))
  unfolding fill_and_publish
  fill_contents d scratch file content ne = ground (
    arith,
    laws.write_keeps d scratch content file ne,
    laws.write_whole d scratch content,
    publish_contents (fs.write_file d scratch content).0 scratch file content,
  )

  temp_apart :
      (d : Disk) (dir file old scratch : Text)
      → read_file_to_string d file ≡ some old
      → (fs.create_temporary_file_in_dir d dir).1 ≡ some scratch
      → file ≢ scratch
  temp_apart d dir file old scratch h e same = let new = laws.temp_new d dir scratch e in cc

  -- A file that is there holds its old contents or all of the new ones after an atomic write, and
  -- the new ones if the call reports success.
  pub atomic_file_write_lem :
      (d : Disk) (file old content : Text)
      → read_file_to_string d file ≡ some old
      → let r = atomic_file_write fs d file content in
        (read_file_to_string r.0 file ≡ some content)
        ⊎ ((read_file_to_string r.0 file ≡ some old) × (r.1 ≡ false))
  unfolding atomic_file_write
  atomic_file_write_lem d file old content h =
      elim (Option-cases (fs.create_temporary_file_in_dir d (fs.dir_name file)).1) [
        | inl e ↦
            rw (e, atomic_file_write) (inr (laws.temp_keeps d (fs.dir_name file) file old h, refl))
        | inr (s, e) ↦
            rw (e, atomic_file_write)
              (ground (
                arith,
                laws.temp_keeps d (fs.dir_name file) file old h,
                fill_contents (fs.create_temporary_file_in_dir d (fs.dir_name file)).0 s file
                    content (temp_apart d (fs.dir_name file) file old s h e),
              ))
      ]

  published :
      (d : Disk) (scratch file content : Text)
      → read_file_to_string d scratch ≡ some content
      → (publish fs d scratch file).1 ≡ true
      → read_file_to_string (publish fs d scratch file).0 file ≡ some content
  published d scratch file content h e = ground (arith, publish_contents d scratch file content h)

  filled :
      (d : Disk) (scratch file content : Text)
      → (fill_and_publish fs d scratch file content).1 ≡ true
      → read_file_to_string (fill_and_publish fs d scratch file content).0 file ≡ some content
  unfolding fill_and_publish
  filled d scratch file content h = ground (
    arith,
    laws.write_whole d scratch content,
    published (fs.write_file d scratch content).0 scratch file content,
  )

  written_by :
      (d : Disk) (file content : Text) (scratch : Option Text)
      → (fs.create_temporary_file_in_dir d (fs.dir_name file)).1 ≡ scratch
      → (atomic_file_write fs d file content).1 ≡ true
      → read_file_to_string (atomic_file_write fs d file content).0 file ≡ some content
  unfolding atomic_file_write
  written_by d file content none e h = ground arith
  written_by d file content (some s) e h =
      ground (arith, filled (fs.create_temporary_file_in_dir d (fs.dir_name file)).0 s file content)

  -- A write that reports success is read back whole, whether or not the file was there before.
  pub atomic_file_write_done :
      (d : Disk) (file content : Text)
      → (atomic_file_write fs d file content).1 ≡ true
      → read_file_to_string (atomic_file_write fs d file content).0 file ≡ some content
  atomic_file_write_done d file content h = written_by d file content _ refl h

  publish_apart :
      (d : Disk) (scratch file other old : Text)
      → other ≢ scratch
      → other ≢ file
      → read_file_to_string d other ≡ some old
      → read_file_to_string (publish fs d scratch file).0 other ≡ some old
  unfolding publish
  publish_apart d scratch file other old ne ne' h = ground (
    arith,
    laws.replace_keeps d scratch file other ne ne',
    laws.chmod_keeps (fs.replace_file d scratch file).0 file other atomic_mode,
  )

  fill_apart :
      (d : Disk) (scratch file other old content : Text)
      → other ≢ scratch
      → other ≢ file
      → read_file_to_string d other ≡ some old
      → read_file_to_string (fill_and_publish fs d scratch file content).0 other ≡ some old
  unfolding fill_and_publish
  fill_apart d scratch file other old content ne ne' h = ground (
    arith,
    laws.write_keeps d scratch content other ne,
    publish_apart (fs.write_file d scratch content).0 scratch file other old ne ne',
  )

  -- An atomic write leaves every other file that is there alone.
  pub atomic_file_write_apart :
      (d : Disk) (file other old content : Text)
      → other ≢ file
      → read_file_to_string d other ≡ some old
      → read_file_to_string (atomic_file_write fs d file content).0 other ≡ some old
  unfolding atomic_file_write
  atomic_file_write_apart d file other old content ne h =
      elim (Option-cases (fs.create_temporary_file_in_dir d (fs.dir_name file)).1) [
        | inl e ↦ rw (e, atomic_file_write) (laws.temp_keeps d (fs.dir_name file) other old h)
        | inr (s, e) ↦
            rw (e, atomic_file_write)
              (fill_apart (fs.create_temporary_file_in_dir d (fs.dir_name file)).0 s file other old
                content (temp_apart d (fs.dir_name file) other old s h e) ne
                (laws.temp_keeps d (fs.dir_name file) other old h))
      ]
