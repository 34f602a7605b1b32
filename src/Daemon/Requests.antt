-- ===== src/Daemon/Requests.antt =====
-- For whom the calls of session_manager_impl.cc ask that the key generator be started: for users who
-- then have a session, as long as no start of the mitigator and no signal to Upstart fails.
pub mod Calls
use chromiumos_platform_logi.Prelude.{
  ℕ, ◌≡◌, refl, inl, inr, subst, Bool, true, false, ◌&&◌, Option, none, some, List, [], ◌∷◌, ◌++◌,
  is_some, Text, text_eq, text_eq→eq, arith, Option-cases, Bool-cases, Outcome, done, died, ◌>>=◌,
  >>=-eq-done,
}
use chromiumos_platform_logi.SessionManager.{
  Env, Effect, UserSession, Manager, find, insert, run_key_generator, mitigate_key_loss,
  restart_browser_with_args, Answer, refuse, with_disk, disk_of, lock_screen,
  handle_lock_screen_shown, handle_lock_screen_dismissed, stop_session,
  announce_session_stopping_if_needed, announce_session_stopped, emit_login_prompt_ready,
  emit_login_prompt_visible, set_flags,
}
use chromiumos_platform_logi.SessionManager.Sessions.{
  Answers, Created, made, not_made, create_user_session, user_name, is_incognito_name,
  enter_session, login, login_checked, start_created, start_session, restart_job,
  restart_job_with_auth, enable_chrome_testing,
}
use chromiumos_platform_logi.SessionManager.Starting.{find-insert, find-insert-other}
use chromiumos_platform_logi.DevicePolicyService.{
  OwnerLogin, check_and_handle_owner_login, login_with_key, mitigate_if_lost,
}

abbrev pub Sessions : Type 0
Sessions = List (Text × UserSession)

-- Everyone for whom the generator is asked has a session.
unfoldable pub served : Sessions → List Effect → Bool
served ss [] = true
served ss (run_key_generator u ∷ es) = is_some (find u ss) && served ss es
served ss (mitigate_key_loss u ∷ es) = is_some (find u ss) && served ss es
served ss (_ ∷ es) = served ss es

pub served-append :
    (ss : Sessions) (xs ys : List Effect) → served ss (xs ++ ys) ≡ served ss xs && served ss ys
unfolding served
served-append ss [] ys = refl
served-append ss (x ∷ xs) ys = ground (arith, served-append ss xs ys)

abbrev pub Has : Text → Sessions → Type 0
Has u ss = is_some (find u ss) ≡ true

find-insert-Has :
    (u name : Text) (v : UserSession) (ss : Sessions) → Has u ss → Has u (insert name v ss)
find-insert-Has u name v ss h = elim (Bool-cases (text_eq name u)) [
  | inl e ↦
      subst (λ (n : Text). Has n (insert name v ss)) (text_eq→eq name u e)
        (rw (find-insert name v ss) refl)
  | inr e ↦ rw (find-insert-other name u v ss e) h
]

-- The mitigator's start succeeds if it is asked for, and so does `initctl`.
abbrev pub IsLucky : Answers → Type 0
IsLucky a = (a.mitigate ≡ true) × (a.emitted ≡ true)

module _ {Disk : Type 0} where
  -- Nobody's session is gone, and whoever is asked for has one.
  abbrev pub Fine : Text → Manager Disk → Manager Disk → Type 0
  Fine u m m' =
      (Has u m.user_sessions → Has u m'.user_sessions) × (served m'.user_sessions m'.effects ≡ true)

  abbrev idle : Manager Disk → Manager Disk
  idle m = record m { effects = [] }

  module _ (env : Env Disk) (u : Text) where
    login_checked-Fine :
        (a : Answers) (email : Text) (b : Bool) (s : UserSession) (o : OwnerLogin Disk)
        (m : Manager Disk)
        → s.username ≡ email
        → a.emitted ≡ true
        → (o.asked_mitigator ≡ true → o.success ≡ true)
        → m.effects ≡ []
        → Fine u m (login_checked env a email b s o m).manager
    unfolding login_checked enter_session served
    login_checked-Fine a email b s o m named emitted asked nothing_yet =
        ground
          (arith, find-insert email s m.user_sessions, find-insert-Has u email s m.user_sessions)

    owner_asked :
        (user : Text) (slot : ℕ) (m : Manager Disk)
        → let o =
            check_and_handle_owner_login env.lib env.beyond env.codec true user slot
              m.device_policy in
          o.asked_mitigator ≡ true → o.success ≡ true
    unfolding check_and_handle_owner_login login_with_key mitigate_if_lost
    owner_asked user slot m = ground arith

    login-Fine :
        (a : Answers) (email : Text) (b : Bool) (s : UserSession) (m : Manager Disk)
        → s.username ≡ email
        → IsLucky a
        → m.effects ≡ []
        → Fine u m (login env a email b s m).manager
    unfolding login
    login-Fine a email b s m named (mitigated, emitted) nothing_yet =
        login_checked-Fine a email b s
          (check_and_handle_owner_login env.lib env.beyond env.codec a.mitigate s.username s.slot
            m.device_policy)
          m named emitted (rw mitigated (owner_asked s.username s.slot m)) nothing_yet

    created_named :
        (email : Text) (b : Bool) (d : Disk) (s : UserSession)
        → (create_user_session env email b d).1 ≡ made s
        → s.username ≡ email
    unfolding create_user_session
    created_named email b d s h = ground arith

    created-Fine :
        (a : Answers) (email : Text) (b : Bool) (m : Manager Disk) (d : Disk) (c : Created)
        → ((s : UserSession) → c ≡ made s → s.username ≡ email)
        → IsLucky a
        → m.effects ≡ []
        → let answer : Answer Disk = elim c [
          | not_made e ↦ refuse (with_disk m d) e
          | made session ↦ login env a email b session (with_disk m d)
        ] in
          Fine u m answer.manager
    unfolding served
    created-Fine a email b m d (not_made e) named lucky nothing_yet = ground arith
    created-Fine a email b m d (made session) named lucky nothing_yet =
        login-Fine a email b session (with_disk m d) (named session refl) lucky nothing_yet

    start_session-Fine :
        (a : Answers) (email : Text) (m : Manager Disk)
        → IsLucky a
        → m.effects ≡ []
        → Fine u m (start_session env a email m).manager
    unfolding start_session start_created served
    start_session-Fine a email m lucky nothing_yet =
        let name = user_name a email in
        let b = is_incognito_name env name in
        let r = create_user_session env name b (disk_of m) in
        ground (
          arith,
          created-Fine a name b m r.0 r.1 (created_named name b (disk_of m)) lucky nothing_yet,
        )

    restart_job-Fine :
        (a : Answers) (browser : Bool) (argv : Option (List Text)) (m : Manager Disk)
        → IsLucky a
        → m.effects ≡ []
        → Fine u m (restart_job env a browser argv m).manager
    unfolding restart_job served
    restart_job-Fine a false argv m lucky nothing_yet = ground arith
    restart_job-Fine a true none m lucky nothing_yet = ground arith
    restart_job-Fine a true (some args) m lucky nothing_yet =
        let started = start_session-Fine a env.guest_user_name m lucky nothing_yet in
        let m' = (start_session env a env.guest_user_name m).manager in
        ground (
          arith,
          started,
          served-append m'.user_sessions m'.effects (restart_browser_with_args args false ∷ []),
        )

    restart_job_with_auth-Fine :
        (a : Answers) (cookie : Text) (browser : Bool) (argv : Option (List Text))
        (m : Manager Disk)
        → IsLucky a
        → m.effects ≡ []
        → Fine u m (restart_job_with_auth env a cookie browser argv m).manager
    unfolding restart_job_with_auth served
    restart_job_with_auth-Fine a cookie browser argv m lucky nothing_yet =
        ground (arith, restart_job-Fine a browser argv m lucky nothing_yet)
