-- ===== src/SystemUtils/Examples.antt =====
-- An atomic write over a file that is there.
use chromiumos_platform_logi.Prelude.{◌≡◌, ◌⊎◌, refl, false, some, codes}
use chromiumos_platform_logi.Platform.SampleDisk.{
  SampleDisk, blank_disk, put, sample_files, sample_laws,
}
use chromiumos_platform_logi.SystemUtils.{atomic_file_write}
use chromiumos_platform_logi.SystemUtils.Atomic.{atomic_file_write_lem}

abbrev old_disk : SampleDisk
old_disk = put blank_disk (codes "/f") (some (codes "old"))

atomic_file_write_example :
    let r = atomic_file_write sample_files old_disk (codes "/f") (codes "new") in
    (r.0 (codes "/f") ≡ some (codes "new"))
    ⊎ ((r.0 (codes "/f") ≡ some (codes "old")) × (r.1 ≡ false))
unfolding chromiumos_platform_logi.Prelude.text_eq
atomic_file_write_example =
    atomic_file_write_lem sample_files sample_laws old_disk (codes "/f") (codes "old") (codes "new")
      refl
