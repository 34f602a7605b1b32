-- ===== src/ChildJob/Identities.antt =====
-- What a child may become: `SetIDs` and `Run` of child_job.cc.
use chromiumos_platform_logi.Prelude.{
  ℕ, ◌≡◌, refl, ◌∙◌, Bool-cases, ◌⊎◌, inl, inr, Bool, true, false, Option, none, some, List, map,
  Text, arith, done,
}
use chromiumos_platform_logi.ChildJob.{
  ChildJob, Identity, c_string, set_ids, export_argv, execs, run,
}
use chromiumos_platform_logi.ChildJob.Argv.{all_arguments, export_argv_lem}

-- The three calls that take on an account's identity have all succeeded.
abbrev pub TookIdentity : Identity → ℕ → Type 0
TookIdentity os uid =
    (name : Text) × (gid : ℕ) × (os.getpwuid uid ≡ some (name, gid))
    × (os.initgroups name gid ≡ true)
    × (os.setgid gid ≡ true)
    × (os.setuid uid ≡ true)

took_identity :
    (os : Identity) (j : ChildJob) (o : Option (Text × ℕ))
    → j.is_desired_uid_set ≡ true
    → os.getpwuid j.desired_uid ≡ o
    → set_ids os j ≡ done 0
    → TookIdentity os j.desired_uid
unfolding set_ids
took_identity os j none s e h = ground arith
took_identity os j (some (name, gid)) s e h =
    (name, gid, e, ground arith, ground arith, ground arith)

run_code :
    (os : Identity) (execv : List Text → Bool) (j : ChildJob) {argv : List Text}
    → run os execv j ≡ done (execs argv)
    → (set_ids os j ≡ done 0) × (argv ≡ export_argv j)
unfolding run
run_code os execv j h = ground arith

-- Another program is only run with the four argument vectors, and with the identity that was asked
-- for: of a job with a desired user, the three identity calls have all succeeded.
pub run-execs :
    (os : Identity) (execv : List Text → Bool) (j : ChildJob) {argv : List Text}
    → run os execv j ≡ done (execs argv)
    → (argv ≡ map c_string (all_arguments j))
      × ((j.is_desired_uid_set ≡ false) ⊎ TookIdentity os j.desired_uid)
unfolding run
run-execs os execv j h =
    let (came, passed) = run_code os execv j h in
    (
      passed ∙ export_argv_lem j,
      elim (Bool-cases j.is_desired_uid_set) [
        | inl s ↦ inr (took_identity os j (os.getpwuid j.desired_uid) s refl came)
        | inr s ↦ inl s
      ],
    )
