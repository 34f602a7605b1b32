-- ===== src/KeyGenerator/Jobs.antt =====
-- What key_generator.cc runs, and for whom.
use chromiumos_platform_logi.Prelude.{ℕ, ◌≡◌, ◌≢◌, true, false, none, some, [], ◌∷◌, Text, arith}
use chromiumos_platform_logi.Platform.Files.{FileSystem}
use chromiumos_platform_logi.ChildJob
use chromiumos_platform_logi.ChildJob.{ChildJob}
use chromiumos_platform_logi.KeyGenerator.{
  KeyGenerator, Spec, keygen_executable, temporary_key_filename, job_for, launch, start,
  handle_keygen_exit, ExitStatus, exited, signalled,
}

-- The job of one user: the tool, the file for the public key, the user's folder, and the user's id.
abbrev pub keygen_job_of : Text → Text → ℕ → ChildJob
keygen_job_of key_path user_path uid =
    ChildJob.set_desired_uid (ChildJob.new (keygen_executable ∷ key_path ∷ user_path ∷ []) false)
      uid

module _ {Disk : Type 0} (fs : FileSystem Disk) (user_path_of : Text → Text) where
  -- The file that a user's new public key is expected in.
  abbrev pub key_path_of : Text → Text
  key_path_of username = fs.append (user_path_of username) temporary_key_filename

  -- A start by a generator with no job left over, if it succeeds, runs the tool as the user and on
  -- the user's paths; a clean exit then hands on that user and that file, and the generator is ready
  -- again.
  pub handle_keygen_exit-start :
      (pid watcher uid : ℕ) (username : Text) (g : KeyGenerator) (spec : Spec) (d : Disk)
      → uid ≢ 0
      → g.keygen_job ≡ none
      → let s = start fs user_path_of (some pid) watcher username uid g spec d in
        s.success ≡ true
        → let f = handle_keygen_exit (exited 0) s.generator s.spec in
          (s.spec.job ≡ some (keygen_job_of (key_path_of username) (user_path_of username) uid))
          × (s.spec.pid ≡ some pid)
          × (f.new_key ≡ some (username, key_path_of username))
          × (f.generator.keygen_job ≡ none)
          × (f.generator.generating ≡ false)
          × (f.spec.pid ≡ none)
  unfolding start launch job_for handle_keygen_exit
  handle_keygen_exit-start pid watcher uid username g spec d root clean h = ground arith

  -- A start whose fork fails leaves its job behind. The next start, for whomever, then runs that job
  -- on the first user's paths, and still expects the key in the second user's file.
  pub start_after_failed_fork :
      (pid w w' uid uid' : ℕ) (first second : Text) (g : KeyGenerator) (spec : Spec) (d d' : Disk)
      → uid ≢ 0
      → g.keygen_job ≡ none
      → (fs.delete d (key_path_of first) false).1 ≡ true
      → let s = start fs user_path_of none w first uid g spec d in
        let t = start fs user_path_of (some pid) w' second uid' s.generator s.spec d' in
        t.success ≡ true
        → uid' ≢ 0
        → (t.spec.job
            ≡ some (
                ChildJob.set_desired_uid
                  (keygen_job_of (key_path_of first) (user_path_of first) uid)
                  uid'))
          × (t.generator.temporary_key_file ≡ key_path_of second)
  unfolding start launch job_for
  start_after_failed_fork pid w w' uid uid' first second g spec d d' root clean gone h root' =
      ground arith

  -- A tool that ends in any other way makes no key, and the generator is ready again all the same.
  pub failed_exit :
      (status : ExitStatus) (g : KeyGenerator) (spec : Spec)
      → status ≢ exited 0
      → let f = handle_keygen_exit status g spec in
        (f.new_key ≡ none) × (f.generator.generating ≡ false) × (f.spec.job ≡ none)
  unfolding handle_keygen_exit
  failed_exit (exited code) g spec bad = ground arith
  failed_exit (signalled sig) g spec bad = ground arith
