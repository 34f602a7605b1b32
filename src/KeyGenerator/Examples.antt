-- ===== src/KeyGenerator/Examples.antt =====
-- Runs of key_generator.cc for two users.
use chromiumos_platform_logi.Prelude.{arith, ◌≡◌, refl, true, some, none, ◌++◌, Text, codes}
use chromiumos_platform_logi.Platform.SampleDisk.{blank_disk, sample_files}
use chromiumos_platform_logi.ChildJob
use chromiumos_platform_logi.KeyGenerator.{Spec, new, start, launch, job_for}
use chromiumos_platform_logi.KeyGenerator.Jobs.{keygen_job_of, key_path_of, start_after_failed_fork}

abbrev home : Text → Text
home user = codes "/home/" ++ user

abbrev idle : Spec
idle = record { job = none; pid = none; watcher = 0 }

start_succeeds :
    (start sample_files home (some 9) 1 (codes "ann") 1000 new idle blank_disk).success ≡ true
unfolding start launch job_for new
start_succeeds = refl

second_succeeds :
    let s = start sample_files home none 1 (codes "ann") 1000 new idle blank_disk in
    (start sample_files home (some 9) 2 (codes "bob") 1001 s.generator s.spec blank_disk).success
    ≡ true
unfolding start launch job_for new
second_succeeds = refl

start_after_failed_fork_example :
    let s = start sample_files home none 1 (codes "ann") 1000 new idle blank_disk in
    let t = start sample_files home (some 9) 2 (codes "bob") 1001 s.generator s.spec blank_disk in
    (t.spec.job
      ≡ some (
          ChildJob.set_desired_uid
            (keygen_job_of (key_path_of sample_files home (codes "ann")) (home (codes "ann")) 1000)
            1001))
    × (t.generator.temporary_key_file ≡ key_path_of sample_files home (codes "bob"))
unfolding new
start_after_failed_fork_example =
    start_after_failed_fork sample_files home 9 1 2 1000 1001 (codes "ann") (codes "bob") new idle
      blank_disk blank_disk (λ h. ground arith) refl refl second_succeeds (λ h. ground arith)
