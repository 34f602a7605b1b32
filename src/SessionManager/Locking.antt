-- ===== src/SessionManager/Locking.antt =====
-- When the calls of session_manager_impl.cc lock the screen.
use chromiumos_platform_logi.Prelude.{
  ℕ, suc, ◌+◌, ◌<◌, ◌≤◌, ◌≡◌, refl, subst, inl, inr, Bool, true, false, Option, none, some, List,
  [], ◌∷◌, length, Text, if◌then◌else◌, arith, Option-cases, Outcome, done, died, ◌>>=◌,
  >>=-eq-done,
}
use chromiumos_platform_logi.SessionManager.{
  Env, UserSession, Manager, find, insert, incognito_count, all_sessions_are_incognito, lock_screen,
  handle_lock_screen_shown, handle_lock_screen_dismissed, Answer, refuse, with_disk, disk_of,
  stop_session, announce_session_stopping_if_needed, announce_session_stopped,
  emit_login_prompt_ready, emit_login_prompt_visible, set_flags,
}
use chromiumos_platform_logi.SessionManager.Sessions.{
  Answers, Created, made, not_made, create_user_session, user_name, is_incognito_name,
  enter_session, login, login_checked, start_created, start_session, restart_job,
  restart_job_with_auth, enable_chrome_testing,
}
use chromiumos_platform_logi.SessionManager.PolicyCalls.{
  lend, user_flags, take_back, accounts_back, store_policy, store_policy_for_user,
  store_device_local_account_policy, retrieve_device_local_account_policy, start_device_wipe,
  initiate_device_wipe, update_accounts, on_policy_persisted, on_key_persisted,
  import_validate_and_store_generated_key, finalize,
}
use chromiumos_platform_logi.SessionManager.Calls.{
  Call, prompt_ready, prompt_visible, chrome_testing, start, stop, lock, lock_shown, lock_dismissed,
  wipe, announce_stopping, announce_stopped, finalizing, restart, restart_with_auth, flags, policy,
  user_policy, account_policy, read_account_policy, policy_persisted, key_persisted, import_key,
  run_call, run_calls,
}
use chromiumos_platform_logi.DevicePolicyService.{OwnerLogin, check_and_handle_owner_login}
use chromiumos_platform_logi.PolicyService.{State}
use chromiumos_platform_logi.UserPolicyService

-- Some session counts as a user's.
abbrev pub HasRealUser : List (Text × UserSession) → Type 0
HasRealUser m = incognito_count m < length m

incognito_count-length : (m : List (Text × UserSession)) → incognito_count m ≤ length m
unfolding incognito_count
incognito_count-length [] = omega arith
incognito_count-length ((n, s) ∷ m) = ground (arith, incognito_count-length m)

insert-HasRealUser-new :
    (name : Text) (v : UserSession) (m : List (Text × UserSession))
    → find name m ≡ none
    → (length (insert name v m) ≡ suc (length m))
      × (incognito_count (insert name v m) ≡ (if v.is_incognito then 1 else 0) + incognito_count m)
unfolding incognito_count insert find
insert-HasRealUser-new name v [] h = ground arith
insert-HasRealUser-new name v ((n, s) ∷ m) h = ground (arith, insert-HasRealUser-new name v m)

insert-HasRealUser-old :
    (name : Text) (v s : UserSession) (m : List (Text × UserSession))
    → find name m ≡ some s
    → v.is_incognito ≡ s.is_incognito
    → (length (insert name v m) ≡ length m)
      × (incognito_count (insert name v m) ≡ incognito_count m)
unfolding incognito_count insert find
insert-HasRealUser-old name v s [] h e = ground arith
insert-HasRealUser-old name v s ((n, s') ∷ m) h e =
    ground (arith, insert-HasRealUser-old name v s m)

module _ {Disk : Type 0} where
  -- The screen is locked only in a session, and only if some session counts as a user's.
  abbrev pub IsGuarded : Manager Disk → Type 0
  IsGuarded m = m.screen_locked ≡ true → (m.session_started ≡ true) × HasRealUser m.user_sessions

  -- What a call does that locks nothing.
  abbrev Kept : Manager Disk → Manager Disk → Type 0
  Kept m m' =
      (m'.screen_locked ≡ true → m.screen_locked ≡ true)
      × (m.session_started ≡ true → m'.session_started ≡ true)
      × (HasRealUser m.user_sessions → HasRealUser m'.user_sessions)

  all_sessions_are_incognito-HasRealUser :
      (m : Manager Disk) → all_sessions_are_incognito m ≡ false → HasRealUser m.user_sessions
  unfolding all_sessions_are_incognito
  all_sessions_are_incognito-HasRealUser m h =
      ground (arith, incognito_count-length m.user_sessions)

  lock_screen-IsGuarded : (m : Manager Disk) → IsGuarded m → IsGuarded (lock_screen m).0
  unfolding lock_screen
  lock_screen-IsGuarded m g = ground (arith, all_sessions_are_incognito-HasRealUser m)

  module _ (env : Env Disk) where
    enter_session-Kept :
        (email : Text) (s : UserSession) (first : Bool) (m : Manager Disk)
        → find email m.user_sessions ≡ none
        → Kept m (enter_session env email s first m)
    unfolding enter_session
    enter_session-Kept email s first m h =
        ground (arith, insert-HasRealUser-new email s m.user_sessions h)

    login_checked-Kept :
        (a : Answers) (email : Text) (b : Bool) (s : UserSession) (o : OwnerLogin Disk)
        (m : Manager Disk)
        → find email m.user_sessions ≡ none
        → Kept m (login_checked env a email b s o m).manager
    unfolding login_checked enter_session
    login_checked-Kept a email b s o m h =
        ground (arith, insert-HasRealUser-new email s m.user_sessions h)

    login-Kept :
        (a : Answers) (email : Text) (b : Bool) (s : UserSession) (m : Manager Disk)
        → find email m.user_sessions ≡ none
        → Kept m (login env a email b s m).manager
    unfolding login
    login-Kept a email b s m h =
        login_checked-Kept a email b s
          (check_and_handle_owner_login env.lib env.beyond env.codec a.mitigate s.username s.slot
            m.device_policy)
          m h

    created-Kept :
        (a : Answers) (email : Text) (b : Bool) (m : Manager Disk) (d : Disk) (c : Created)
        → find email m.user_sessions ≡ none
        → let answer : Answer Disk = elim c [
          | not_made e ↦ refuse (with_disk m d) e
          | made session ↦ login env a email b session (with_disk m d)
        ] in
          Kept m answer.manager
    created-Kept a email b m d (not_made e) h = (λ l. l, λ s. s, λ r. r)
    created-Kept a email b m d (made session) h = login-Kept a email b session (with_disk m d) h

    start_created-Kept :
        (a : Answers) (email : Text) (b : Bool) (m : Manager Disk)
        → find email m.user_sessions ≡ none
        → Kept m (start_created env a email b m).manager
    unfolding start_created
    start_created-Kept a email b m h =
        let r = create_user_session env email b (disk_of m) in created-Kept a email b m r.0 r.1 h

    start_session-Kept :
        (a : Answers) (email : Text) (m : Manager Disk)
        → Kept m (start_session env a email m).manager
    unfolding start_session
    start_session-Kept a email m = ground (
      arith,
      start_created-Kept a (user_name a email) (is_incognito_name env (user_name a email)) m,
    )

    restart_job-Kept :
        (a : Answers) (browser : Bool) (argv : Option (List Text)) (m : Manager Disk)
        → Kept m (restart_job env a browser argv m).manager
    unfolding restart_job
    restart_job-Kept a browser argv m = ground (arith, start_session-Kept a env.guest_user_name m)

    restart_job_with_auth-Kept :
        (a : Answers) (cookie : Text) (browser : Bool) (argv : Option (List Text))
        (m : Manager Disk)
        → Kept m (restart_job_with_auth env a cookie browser argv m).manager
    unfolding restart_job_with_auth
    restart_job_with_auth-Kept a cookie browser argv m =
        ground (arith, restart_job-Kept a browser argv m)

    enable_chrome_testing-Kept :
        (force : Bool) (extra : List Text) (m : Manager Disk)
        → Kept m (enable_chrome_testing env force extra m).0
    unfolding enable_chrome_testing
    enable_chrome_testing-Kept force extra m = ground arith

    take_back-Kept :
        (name : Text) (session : UserSession) (m : Manager Disk) (s : State Disk)
        → find name m.user_sessions ≡ some session
        → Kept m (take_back name session m s)
    unfolding take_back
    take_back-Kept name session m s h = ground (
      arith,
      insert-HasRealUser-old name (record session { key = s.key; store = s.store }) session
          m.user_sessions h refl,
    )

    store_policy_for_user-Kept :
        (a : Answers) (user blob : Text) (completion : ℕ) (m : Manager Disk)
        (r : Manager Disk × Bool)
        → store_policy_for_user env a user blob completion m ≡ done r
        → Kept m r.0
    unfolding store_policy_for_user
    store_policy_for_user-Kept a user blob completion m r h =
        elim (Option-cases (find (user_name a user) m.user_sessions)) [
          | inl e ↦ ground arith
          | inr (session, e) ↦
              let answer : State Disk × Bool → Manager Disk × Bool =
                λ q. (take_back (user_name a user) session m q.0, q.1) in
              let (q, _, e') =
                >>=-eq-done
                  (UserPolicyService.store env.lib env.beyond env.codec blob completion user_flags
                    (lend m session))
                  (λ q. done (answer q)) (rw (e, store_policy_for_user) at h) in
              let same : answer q ≡ r = cc in
              subst (λ (x : Manager Disk × Bool). Kept m x.0) same
                (take_back-Kept (user_name a user) session m q.0 e)
        ]

    store_policy-Kept :
        (blob : Text) (completion : ℕ) (m : Manager Disk) (r : Manager Disk × Bool)
        → store_policy env blob completion m ≡ done r
        → Kept m r.0
    unfolding store_policy
    store_policy-Kept blob completion m r h = ground arith

    account_policy-Kept :
        (a : Answers) (id blob : Text) (completion : ℕ) (m : Manager Disk) (r : Manager Disk × Bool)
        → store_device_local_account_policy env a id blob completion m ≡ done r
        → Kept m r.0
    unfolding store_device_local_account_policy accounts_back
    account_policy-Kept a id blob completion m r h = ground arith

    read_account_policy-Kept :
        (a : Answers) (id : Text) (m : Manager Disk)
        → Kept m (retrieve_device_local_account_policy env a id m).0
    unfolding retrieve_device_local_account_policy accounts_back
    read_account_policy-Kept a id m = ground arith

    import_key-Kept :
        (user file : Text) (m m' : Manager Disk)
        → import_validate_and_store_generated_key env user file m ≡ done m'
        → Kept m m'
    unfolding import_validate_and_store_generated_key
    import_key-Kept user file m m' h = ground arith

    answered :
        (o : Outcome (Manager Disk × Bool)) (m m' : Manager Disk)
        → ((r : Manager Disk × Bool) → o ≡ done r → Kept m r.0)
        → (o >>= λ r. done r.0) ≡ done m'
        → Kept m m'
    answered died m m' k h = ground arith
    answered (done r) m m' k h =
        let same : r.0 ≡ m' = cc in subst (λ (x : Manager Disk). Kept m x) same (k r refl)

    run_call-IsGuarded :
        (c : Call) (m m' : Manager Disk) → run_call env c m ≡ done m' → IsGuarded m → IsGuarded m'
    unfolding run_call emit_login_prompt_ready emit_login_prompt_visible stop_session
        handle_lock_screen_shown handle_lock_screen_dismissed start_device_wipe initiate_device_wipe
        announce_session_stopping_if_needed announce_session_stopped finalize set_flags
        on_policy_persisted update_accounts accounts_back on_key_persisted
    run_call-IsGuarded (prompt_ready e) m m' h g = ground arith
    run_call-IsGuarded (prompt_visible e) m m' h g = ground arith
    run_call-IsGuarded (chrome_testing f x) m m' h g =
        ground (arith, enable_chrome_testing-Kept f x m)
    run_call-IsGuarded (start a e) m m' h g = ground (arith, start_session-Kept a e m)
    run_call-IsGuarded stop m m' h g = ground arith
    run_call-IsGuarded lock m m' h g = ground (arith, lock_screen-IsGuarded m g)
    run_call-IsGuarded lock_shown m m' h g = ground arith
    run_call-IsGuarded lock_dismissed m m' h g = ground arith
    run_call-IsGuarded wipe m m' h g = ground arith
    run_call-IsGuarded announce_stopping m m' h g = ground arith
    run_call-IsGuarded announce_stopped m m' h g = ground arith
    run_call-IsGuarded finalizing m m' h g = ground arith
    run_call-IsGuarded (restart a b v) m m' h g = ground (arith, restart_job-Kept a b v m)
    run_call-IsGuarded (restart_with_auth a k b v) m m' h g =
        ground (arith, restart_job_with_auth-Kept a k b v m)
    run_call-IsGuarded (flags u fs) m m' h g = ground arith
    run_call-IsGuarded (policy b n) m m' h g =
        ground (arith, answered _ m m' (store_policy-Kept b n m) h)
    run_call-IsGuarded (user_policy a u b n) m m' h g =
        ground (arith, answered _ m m' (store_policy_for_user-Kept a u b n m) h)
    run_call-IsGuarded (account_policy a i b n) m m' h g =
        ground (arith, answered _ m m' (account_policy-Kept a i b n m) h)
    run_call-IsGuarded (read_account_policy a i) m m' h g =
        ground (arith, read_account_policy-Kept a i m)
    run_call-IsGuarded (policy_persisted b) m m' h g = ground arith
    run_call-IsGuarded (key_persisted b) m m' h g = ground arith
    run_call-IsGuarded (import_key u f) m m' h g = ground (arith, import_key-Kept u f m m' h)

    -- Over any sequence of calls that comes to its end, a screen that is locked only in a session with
    -- some session that is not incognito stays so; it holds at first of an unlocked screen.
    pub run_calls-IsGuarded :
        (cs : List Call) (m m' : Manager Disk)
        → run_calls env cs m ≡ done m'
        → IsGuarded m
        → IsGuarded m'
    unfolding run_calls
    run_calls-IsGuarded [] m m' h g = ground arith
    run_calls-IsGuarded (c ∷ cs) m m' h g =
        let (m₁, e, e') = >>=-eq-done (run_call env c m) (λ n. run_calls env cs n) h in
        run_calls-IsGuarded cs m₁ m' e' (run_call-IsGuarded c m m₁ e g)
