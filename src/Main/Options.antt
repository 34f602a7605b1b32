-- ===== src/Main/Options.antt =====
-- The numbers that session_manager_main.cc reads off its command line.
use chromiumos_platform_logi.Prelude.{
  ℕ, suc, ◌+◌, ◌^◌, ◌<◌, ◌≡◌, ap, true, false, Option, none, some, arith,
}
use chromiumos_platform_logi.ChildJob
use chromiumos_platform_logi.ChildJob.{ChildJob}
use chromiumos_platform_logi.SessionManagerService.{get_arg_list}
use chromiumos_platform_logi.Main.{
  ℤ, pos, negsuc, CommandLine, uid_of_int, switch_value, browser_job_for, read_settings, uid_switch,
  uid_option, multi_profile,
}

-- What a 32-bit int can be.
abbrev pub IsInt : ℤ → Type 0
IsInt (pos n) = n < 2 ^ 31
IsInt (negsuc n) = n < 2 ^ 31

-- The number modulo 2 to the 32.
abbrev pub IsWrapped : ℤ → ℕ → Type 0
IsWrapped (pos n) u = u ≡ n
IsWrapped (negsuc n) u = u + suc n ≡ 2 ^ 32

uid_of_int_lem : (i : ℤ) → IsInt i → (uid_of_int i < 2 ^ 32) × IsWrapped i (uid_of_int i)
unfolding uid_of_int
uid_of_int_lem (pos n) h = omega arith
uid_of_int_lem (negsuc n) h = omega arith

-- A parsable user id is kept modulo 2 to the 32, so that a negative one is a very large one, and is
-- the one that the browser's job is to run under; without one the job runs as the program does.
pub read_settings-uid :
    (cl : CommandLine) (i : ℤ)
    → IsInt i
    → let s = read_settings cl in
      (switch_value cl cl.string_to_int uid_switch ≡ some i
        → (u : ℕ) × (s.uid ≡ some u)
          × (u < 2 ^ 32)
          × IsWrapped i u
          × (s.browser_job.is_desired_uid_set ≡ true)
          × (s.browser_job.desired_uid ≡ u))
      × (switch_value cl cl.string_to_int uid_switch ≡ none
          → (s.uid ≡ none) × (s.browser_job.is_desired_uid_set ≡ false))
unfolding read_settings browser_job_for ChildJob.set_desired_uid ChildJob.new
read_settings-uid cl i small = (
  λ e. (
    uid_of_int i,
    ap uid_option e,
    (uid_of_int_lem i small).0,
    (uid_of_int_lem i small).1,
    ap (λ (o : Option ℤ). (job o).is_desired_uid_set) e,
    ap (λ (o : Option ℤ). (job o).desired_uid) e,
  ),
  λ e. (ap uid_option e, ap (λ (o : Option ℤ). (job o).is_desired_uid_set) e),
)
  where
    job : Option ℤ → ChildJob
    job o = browser_job_for (get_arg_list cl.args) (cl.has_switch multi_profile) (uid_option o)
