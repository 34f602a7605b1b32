-- ===== src/SessionManager/Starting.antt =====
-- What a start of a session leaves, in session_manager_impl.cc.
use chromiumos_platform_logi.Prelude.{
  ◌≡◌, subst, ◌⊎◌, Bool, true, false, none, some, List, [], ◌∷◌, is_some, Text, text_eq, text_eq→eq,
  text_eq_refl, arith,
}
use chromiumos_platform_logi.PolicyService.{session_exists}
use chromiumos_platform_logi.DevicePolicyService.{OwnerLogin, check_and_handle_owner_login}
use chromiumos_platform_logi.SessionManager.{
  Env, UserSession, Manager, Answer, find, insert, refuse, with_disk, disk_of,
}
use chromiumos_platform_logi.SessionManager.Strings.{validate_email}
use chromiumos_platform_logi.SessionManager.Sessions.{
  Answers, Created, made, not_made, create_user_session, user_name, is_incognito_name,
  enter_session, login, login_checked, start_created, start_session,
}

pub find-insert :
    (name : Text) (v : UserSession) (m : List (Text × UserSession))
    → find name (insert name v m) ≡ some v
unfolding find insert
find-insert name v [] = ground (arith, text_eq_refl name)
find-insert name v ((n, s) ∷ m) = ground (arith, text_eq_refl name, find-insert name v m)

pub find-insert-other :
    (name other : Text) (v : UserSession) (m : List (Text × UserSession))
    → text_eq name other ≡ false
    → find other (insert name v m) ≡ find other m
unfolding find insert
find-insert-other name other v [] h = ground arith
find-insert-other name other v ((n, s) ∷ m) h =
    ground (arith, find-insert-other name other v m h, text_eq→eq n name)

module _ {Disk : Type 0} (env : Env Disk) where
  -- What has changed of the sessions, for a name that is started and one that is not.
  abbrev pub Entered : Text → Text → Manager Disk → Answer Disk → Type 0
  Entered email other m a =
      (a.success ≡ true
        → (a.manager.session_started ≡ true)
          × (is_some (find email a.manager.user_sessions) ≡ true)
          × (text_eq email other ≡ false
              → find other a.manager.user_sessions ≡ find other m.user_sessions))
      × (a.success ≡ false
          → (a.manager.session_started ≡ m.session_started)
            × (a.manager.user_sessions ≡ m.user_sessions)
            × (is_some a.error ≡ true))

  login_checked-Entered :
      (a : Answers) (email other : Text) (b : Bool) (s : UserSession) (o : OwnerLogin Disk)
      (m : Manager Disk)
      → Entered email other m (login_checked env a email b s o m)
  unfolding login_checked enter_session
  login_checked-Entered a email other b s o m =
      ground (
        arith,
        find-insert email s m.user_sessions,
        find-insert-other email other s m.user_sessions,
      )

  login-Entered :
      (a : Answers) (email other : Text) (b : Bool) (s : UserSession) (m : Manager Disk)
      → Entered email other m (login env a email b s m)
  unfolding login
  login-Entered a email other b s m =
      login_checked-Entered a email other b s
        (check_and_handle_owner_login env.lib env.beyond env.codec a.mitigate s.username s.slot
          m.device_policy)
        m

  created-Entered :
      (a : Answers) (email other : Text) (b : Bool) (m : Manager Disk) (d : Disk) (c : Created)
      → let answer : Answer Disk = elim c [
        | not_made e ↦ refuse (with_disk m d) e
        | made session ↦ login env a email b session (with_disk m d)
      ] in
        Entered email other m answer
  created-Entered a email other b m d (not_made e) = ground arith
  created-Entered a email other b m d (made session) =
      login-Entered a email other b session (with_disk m d)

  start_created-Entered :
      (a : Answers) (email other : Text) (b : Bool) (m : Manager Disk)
      → Entered email other m (start_created env a email b m)
  unfolding start_created
  start_created-Entered a email other b m =
      let r = create_user_session env email b (disk_of m) in
      created-Entered a email other b m r.0 r.1

  module _ (a : Answers) (email_address other : Text) (m : Manager Disk) where
    -- A successful start was given a valid or an incognito name that had no session, leaves that name
    -- with a session, and every other name with what it had. A failed one leaves the sessions as they
    -- were and sets an error.
    pub start_session_lem :
        let answer = start_session env a email_address m in
        let email = user_name a email_address in
        Entered email other m answer
        × (answer.success ≡ true
            → (find email m.user_sessions ≡ none)
              × ((validate_email email ≡ true) ⊎ (is_incognito_name env email ≡ true)))
    unfolding start_session
    start_session_lem =
        let email = user_name a email_address in
        ground (arith, start_created-Entered a email other (is_incognito_name env email) m)

  session_taken :
      (a : Answers) (email_address : Text) (m : Manager Disk)
      → let email = user_name a email_address in
        is_some (find email m.user_sessions) ≡ true
        → (validate_email email ≡ true) ⊎ (is_incognito_name env email ≡ true)
        → start_session env a email_address m ≡ refuse m session_exists
  unfolding start_session
  session_taken a email_address m taken ok = ground arith

  -- Whoever has started a session is refused a second one, by any spelling of the name in which it has
  -- the same lower case, and the refused call changes nothing.
  pub start_session_again :
      (a a' : Answers) (email_address spelling : Text) (m : Manager Disk)
      → user_name a email_address ≡ user_name a' spelling
      → (start_session env a email_address m).success ≡ true
      → let m' = (start_session env a email_address m).manager in
        start_session env a' spelling m' ≡ refuse m' session_exists
  start_session_again a a' email_address spelling m same h =
      let email = user_name a email_address in
      let m' = (start_session env a email_address m).manager in
      let (entered, known) = start_session_lem a email_address email m in
      let (_, ok) = known h in
      let (_, taken, _) = entered.0 h in
      session_taken a' spelling m'
        (subst (λ (n : Text). is_some (find n m'.user_sessions) ≡ true) same taken)
        (subst (λ (n : Text). (validate_email n ≡ true) ⊎ (is_incognito_name env n ≡ true)) same ok)
