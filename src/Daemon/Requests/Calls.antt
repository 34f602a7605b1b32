-- ===== src/Daemon/Requests/Calls.antt =====
-- Every call of session_manager_impl.cc keeps the sessions that there are, and asks for the key
-- generator only on behalf of users with a session.
use chromiumos_platform_logi.Prelude.{
  ℕ, ◌≡◌, refl, inl, inr, subst, Bool, List, [], Text, arith, Option-cases, Outcome, done, died,
  ◌>>=◌, >>=-eq-done,
}
use chromiumos_platform_logi.SessionManager.{
  Env, UserSession, Manager, find, lock_screen, handle_lock_screen_shown,
  handle_lock_screen_dismissed, stop_session, announce_session_stopping_if_needed,
  announce_session_stopped, emit_login_prompt_ready, emit_login_prompt_visible, set_flags,
}
use chromiumos_platform_logi.SessionManager.Sessions.{Answers, user_name, enable_chrome_testing}
use chromiumos_platform_logi.SessionManager.PolicyCalls.{
  lend, user_flags, take_back, accounts_back, store_policy, store_policy_for_user,
  store_device_local_account_policy, retrieve_device_local_account_policy, start_device_wipe,
  initiate_device_wipe, update_accounts, on_policy_persisted, on_key_persisted,
  import_validate_and_store_generated_key, finalize,
}
use chromiumos_platform_logi.SessionManager.Calls.{
  Call, prompt_ready, prompt_visible, chrome_testing, start, stop, lock, lock_shown, lock_dismissed,
  wipe, announce_stopping, announce_stopped, finalizing, restart, restart_with_auth, flags, policy,
  user_policy, account_policy, read_account_policy, policy_persisted, key_persisted, import_key,
  run_call,
}
use chromiumos_platform_logi.PolicyService.{State}
use chromiumos_platform_logi.UserPolicyService
use chromiumos_platform_logi.Daemon.Requests.{
  served, Fine, IsLucky, find-insert-Has, start_session-Fine, restart_job-Fine,
  restart_job_with_auth-Fine,
}

-- Nothing that a call is answered fails that would leave the generator running for nobody.
unfoldable pub IsLuckyCall : Call → Type 0
IsLuckyCall (start a email) = IsLucky a
IsLuckyCall (restart a browser argv) = IsLucky a
IsLuckyCall (restart_with_auth a cookie browser argv) = IsLucky a
IsLuckyCall _ = Unit

module _ {Disk : Type 0} (env : Env Disk) where
  module _ (u : Text) where
    take_back-Fine :
        (name : Text) (session : UserSession) (m : Manager Disk) (s : State Disk)
        → m.effects ≡ []
        → Fine u m (take_back name session m s)
    unfolding take_back served
    take_back-Fine name session m s nothing_yet = ground (
      arith,
      find-insert-Has u name (record session { key = s.key; store = s.store }) m.user_sessions,
    )

    store_policy_for_user-Fine :
        (a : Answers) (user blob : Text) (completion : ℕ) (m : Manager Disk)
        (r : Manager Disk × Bool)
        → store_policy_for_user env a user blob completion m ≡ done r
        → m.effects ≡ []
        → Fine u m r.0
    unfolding store_policy_for_user served
    store_policy_for_user-Fine a user blob completion m r h nothing_yet =
        elim (Option-cases (find (user_name a user) m.user_sessions)) [
          | inl e ↦ ground arith
          | inr (session, e) ↦
              let answer : State Disk × Bool → Manager Disk × Bool =
                λ q. (take_back (user_name a user) session m q.0, q.1) in
              let (q, _, e') =
                >>=-eq-done
                  (UserPolicyService.store env.lib env.beyond env.codec blob completion user_flags
                    (lend m session))
                  (λ q. done (answer q)) (rw (e, store_policy_for_user) at h) in
              let same : answer q ≡ r = cc in
              subst (λ (x : Manager Disk × Bool). Fine u m x.0) same
                (take_back-Fine (user_name a user) session m q.0 nothing_yet)
        ]

    store_policy-Fine :
        (blob : Text) (completion : ℕ) (m : Manager Disk) (r : Manager Disk × Bool)
        → store_policy env blob completion m ≡ done r
        → m.effects ≡ []
        → Fine u m r.0
    unfolding store_policy served
    store_policy-Fine blob completion m r h nothing_yet = ground arith

    account_policy-Fine :
        (a : Answers) (id blob : Text) (completion : ℕ) (m : Manager Disk) (r : Manager Disk × Bool)
        → store_device_local_account_policy env a id blob completion m ≡ done r
        → m.effects ≡ []
        → Fine u m r.0
    unfolding store_device_local_account_policy accounts_back served
    account_policy-Fine a id blob completion m r h nothing_yet = ground arith

    read_account_policy-Fine :
        (a : Answers) (id : Text) (m : Manager Disk)
        → m.effects ≡ []
        → Fine u m (retrieve_device_local_account_policy env a id m).0
    unfolding retrieve_device_local_account_policy accounts_back served
    read_account_policy-Fine a id m nothing_yet = ground arith

    import_key-Fine :
        (user file : Text) (m m' : Manager Disk)
        → import_validate_and_store_generated_key env user file m ≡ done m'
        → m.effects ≡ []
        → Fine u m m'
    unfolding import_validate_and_store_generated_key served
    import_key-Fine user file m m' h nothing_yet = ground arith

    enable_chrome_testing-Fine :
        (force : Bool) (extra : List Text) (m : Manager Disk)
        → m.effects ≡ []
        → Fine u m (enable_chrome_testing env force extra m).0
    unfolding enable_chrome_testing served
    enable_chrome_testing-Fine force extra m nothing_yet = ground arith

    lock_screen-Fine : (m : Manager Disk) → m.effects ≡ [] → Fine u m (lock_screen m).0
    unfolding lock_screen served
    lock_screen-Fine m nothing_yet = ground arith

    answered :
        (o : Outcome (Manager Disk × Bool)) (m m' : Manager Disk)
        → ((r : Manager Disk × Bool) → o ≡ done r → m.effects ≡ [] → Fine u m r.0)
        → (o >>= λ r. done r.0) ≡ done m'
        → m.effects ≡ []
        → Fine u m m'
    answered died m m' k h nothing_yet = cc
    answered (done r) m m' k h nothing_yet =
        let same : r.0 ≡ m' = cc in
        subst (λ (x : Manager Disk). Fine u m x) same (k r refl nothing_yet)

    pub run_call-Fine :
        (c : Call) (m m' : Manager Disk)
        → run_call env c m ≡ done m'
        → IsLuckyCall c
        → m.effects ≡ []
        → Fine u m m'
    unfolding run_call emit_login_prompt_ready emit_login_prompt_visible stop_session
        handle_lock_screen_shown handle_lock_screen_dismissed start_device_wipe initiate_device_wipe
        announce_session_stopping_if_needed announce_session_stopped finalize set_flags
        on_policy_persisted update_accounts accounts_back on_key_persisted served IsLuckyCall
    run_call-Fine (prompt_ready e) m m' h l n = ground arith
    run_call-Fine (prompt_visible e) m m' h l n = ground arith
    run_call-Fine (chrome_testing f x) m m' h l n =
        ground (arith, enable_chrome_testing-Fine f x m n)
    run_call-Fine (start a e) m m' h l n = ground (arith, start_session-Fine env u a e m l n)
    run_call-Fine stop m m' h l n = ground arith
    run_call-Fine lock m m' h l n = ground (arith, lock_screen-Fine m n)
    run_call-Fine lock_shown m m' h l n = ground arith
    run_call-Fine lock_dismissed m m' h l n = ground arith
    run_call-Fine wipe m m' h l n = ground arith
    run_call-Fine announce_stopping m m' h l n = ground arith
    run_call-Fine announce_stopped m m' h l n = ground arith
    run_call-Fine finalizing m m' h l n = ground arith
    run_call-Fine (restart a b v) m m' h l n = ground (arith, restart_job-Fine env u a b v m l n)
    run_call-Fine (restart_with_auth a k b v) m m' h l n =
        ground (arith, restart_job_with_auth-Fine env u a k b v m l n)
    run_call-Fine (flags w fs) m m' h l n = ground arith
    run_call-Fine (policy b k) m m' h l n = answered _ m m' (store_policy-Fine b k m) h n
    run_call-Fine (user_policy a w b k) m m' h l n =
        answered _ m m' (store_policy_for_user-Fine a w b k m) h n
    run_call-Fine (account_policy a i b k) m m' h l n =
        answered _ m m' (account_policy-Fine a i b k m) h n
    run_call-Fine (read_account_policy a i) m m' h l n =
        ground (arith, read_account_policy-Fine a i m n)
    run_call-Fine (policy_persisted b) m m' h l n = ground arith
    run_call-Fine (key_persisted b) m m' h l n = ground arith
    run_call-Fine (import_key w f) m m' h l n = import_key-Fine w f m m' h n
