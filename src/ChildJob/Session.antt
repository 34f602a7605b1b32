-- ===== src/ChildJob/Session.antt =====
-- The login flags and the program name across sessions.
use chromiumos_platform_logi.Prelude.{
  ◌≡◌, ◌≢◌, refl, ◌∙◌, Bool, true, false, ◌||◌, List, [], ◌∷◌, ◌++◌, any, keep, Text, text_eq,
  arith, if◌then◌else◌,
}
use chromiumos_platform_logi.ChildJob.{
  ChildJob, new, start_session, stop_session, set_arguments, login_manager_flag, multi_profile_flag,
  without, argv0,
}
use chromiumos_platform_logi.ChildJob.Argv.{all_arguments}

abbrev pub is_manager_flag : Text → Bool
is_manager_flag a = text_eq a login_manager_flag

any-append : (p : Text → Bool) (xs ys : List Text) → any p (xs ++ ys) ≡ any p xs || any p ys
unfolding any
any-append p [] ys = refl
any-append p (x ∷ xs) ys = ground (arith, any-append p xs ys)

any-without : (xs : List Text) → any is_manager_flag (without login_manager_flag xs) ≡ false
unfolding any keep
any-without [] = refl
any-without (x ∷ xs) = ground (arith, any-without xs)

any-all_arguments :
    (j : ChildJob)
    → any is_manager_flag (all_arguments j)
      ≡ any is_manager_flag j.arguments
        || any is_manager_flag
            (j.login_arguments ++ (j.extra_arguments ++ j.extra_one_time_arguments))
any-all_arguments j = any-append is_manager_flag j.arguments _

given_flag :
    (args : List Text) (multi : Bool)
    → any is_manager_flag (if multi then args ++ multi_profile_flag ∷ [] else args)
      ≡ any is_manager_flag args
unfolding any text_eq
given_flag args true = any-append is_manager_flag args (multi_profile_flag ∷ []) ∙ ground arith
given_flag args false = refl

managed_flag :
    (args : List Text) (multi : Bool)
    → any is_manager_flag (
        (if any is_manager_flag (if multi then args ++ multi_profile_flag ∷ [] else args)
          then login_manager_flag ∷ []
          else [])
        ++ [])
      ≡ any is_manager_flag args
unfolding any text_eq
managed_flag args multi = rw (given_flag args multi) (ground arith)

-- The constructor moves the login-manager flag out of the base arguments and loses no other: the
-- flag is exported exactly if it was given.
pub any-flag-new :
    (args : List Text) (multi : Bool)
    → (any is_manager_flag (new args multi).arguments ≡ false)
      × (any is_manager_flag (all_arguments (new args multi)) ≡ any is_manager_flag args)
unfolding new
any-flag-new args multi = (
  any-without (if multi then args ++ multi_profile_flag ∷ [] else args),
  any-all_arguments (new args multi) ∙ rw any-without (managed_flag args multi),
)

-- A job in session carries no login-manager flag, whatever it was made with.
pub any-flag-start_session :
    (args : List Text) (multi : Bool) (email userhash : Text)
    → any is_manager_flag (all_arguments (start_session (new args multi) email userhash)) ≡ false
unfolding start_session new any text_eq
any-flag-start_session args multi email userhash =
    any-all_arguments (start_session (new args multi) email userhash) ∙ rw any-without refl

-- Only the first session counts: later ones leave the arguments as they are.
pub start_session_twice :
    (j : ChildJob) (email userhash email' userhash' : Text)
    → start_session (start_session j email userhash) email' userhash'
      ≡ start_session j email userhash
unfolding start_session
start_session_twice j email userhash email' userhash' = ground arith

-- Stopping a first session gives back the login arguments that the job was made with.
pub stop_session-start_session :
    (args : List Text) (multi : Bool) (email userhash : Text)
    → (stop_session (start_session (new args multi) email userhash)).login_arguments
      ≡ (new args multi).login_arguments
unfolding stop_session start_session new
stop_session-start_session args multi email userhash = ground arith

abbrev pub tail : List Text → List Text
tail [] = []
tail (a ∷ rest) = rest

-- New arguments keep the program name of a job that has one, and else come whole.
pub arguments-set_arguments :
    (j : ChildJob) (args : List Text)
    → (argv0 j.arguments ≢ [] → (set_arguments j args).arguments ≡ argv0 j.arguments ∷ tail args)
      × (argv0 j.arguments ≡ [] → (set_arguments j args).arguments ≡ args)
unfolding set_arguments
arguments-set_arguments j args = ground arith
