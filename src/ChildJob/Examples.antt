-- ===== src/ChildJob/Examples.antt =====
-- Runs of child_job.cc on concrete jobs.
use chromiumos_platform_logi.Prelude.{
  ◌≡◌, ◌↔◌, ◌<◌, ◌+◌, ◌⊎◌, refl, true, false, some, [], ◌∷◌, map, codes, done,
}
use chromiumos_platform_logi.ChildJob.{
  ChildJob, new, start_session, c_string, export_argv, should_stop, restart_window_seconds,
  Identity, run, execs, set_ids,
}
use chromiumos_platform_logi.ChildJob.Argv.{all_arguments, export_argv_lem}
use chromiumos_platform_logi.ChildJob.Restarts.{record_all, should_stop-iff-fourth_start}
use chromiumos_platform_logi.ChildJob.Identities.{TookIdentity, run-execs}

abbrev browser : ChildJob
browser =
    start_session (new (codes "chrome" ∷ codes "--login-manager" ∷ []) true) (codes "a@b.c")
      (codes "hash")

export_argv_example : export_argv browser ≡ map c_string (all_arguments browser)
export_argv_example = export_argv_lem browser

fourth_start_example :
    (should_stop (record_all (new (codes "chrome" ∷ []) false) (5 ∷ 100 ∷ 110 ∷ 120 ∷ 130 ∷ [])) 140
      ≡ true)
    ↔ (140 < 100 + restart_window_seconds)
fourth_start_example =
    should_stop-iff-fourth_start (codes "chrome" ∷ []) false (5 ∷ []) 100 110 120 130 140

abbrev system : Identity
system = record {
  getpwuid = λ uid. some (codes "chronos", uid);
  initgroups = λ name gid. true;
  setgid = λ gid. true;
  setuid = λ uid. true;
}

abbrev child : ChildJob
child = record (new (codes "chrome" ∷ []) false) { desired_uid = 1000; is_desired_uid_set = true }

execs-child : run system (λ argv. true) child ≡ done (execs (export_argv child))
unfolding run set_ids export_argv new
execs-child = refl

run-execs_example :
    (export_argv child ≡ map c_string (all_arguments child))
    × ((child.is_desired_uid_set ≡ false) ⊎ TookIdentity system child.desired_uid)
run-execs_example = run-execs system (λ argv. true) child execs-child
