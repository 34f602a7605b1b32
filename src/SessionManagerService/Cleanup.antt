-- ===== src/SessionManagerService/Cleanup.antt =====
-- The signals that the end of session_manager_service.cc sends to the children.
use chromiumos_platform_logi.Prelude.{
  ℕ, ◌≡◌, append_nil, Bool, none, some, List, [], ◌∷◌, ◌++◌, arith, if◌then◌else◌,
}
use chromiumos_platform_logi.ChildJob.{ChildJob}
use chromiumos_platform_logi.SessionManagerService.{
  Action, sent, process, BrowserService, kill_uid, kill_and_remember, abort_remaining,
  cleanup_children, sigterm, sigabrt,
}

-- What is sent to one child: SIGTERM, and later SIGABRT if it stays.
abbrev pub terms_for : ℕ → ℕ → List Action
terms_for pid uid = sent (process pid) uid sigterm ∷ []

abbrev pub aborts_for : (ℕ → Bool) → ℕ → ℕ → List Action
aborts_for gone pid uid = if gone pid then [] else sent (process pid) uid sigabrt ∷ []

module _ (gone : ℕ → Bool) (b : BrowserService) (job : ChildJob) where
  -- With both children at work each is sent SIGTERM, the browser first; after that, and only if it has
  -- not gone, SIGABRT, as the same user. A child that is not there is sent nothing.
  pub cleanup_children_lem :
      b.generator.job ≡ some job
      → let signals = λ (p q : ℕ).
        terms_for p (kill_uid b.browser b.own_uid)
        ++ (terms_for q (kill_uid job b.own_uid)
            ++ (aborts_for gone p (kill_uid b.browser b.own_uid)
                ++ aborts_for gone q (kill_uid job b.own_uid))) in
        ((p q : ℕ)
          → b.browser_pid ≡ some p
          → b.generator.pid ≡ some q
          → (cleanup_children gone b).actions ≡ b.actions ++ signals p q)
        × ((p : ℕ)
            → b.browser_pid ≡ some p
            → b.generator.pid ≡ none
            → (cleanup_children gone b).actions
              ≡ b.actions
                ++ (terms_for p (kill_uid b.browser b.own_uid)
                    ++ aborts_for gone p (kill_uid b.browser b.own_uid)))
        × ((q : ℕ)
            → b.browser_pid ≡ none
            → b.generator.pid ≡ some q
            → (cleanup_children gone b).actions
              ≡ b.actions
                ++ (terms_for q (kill_uid job b.own_uid)
                    ++ aborts_for gone q (kill_uid job b.own_uid)))
        × (b.browser_pid ≡ none
            → b.generator.pid ≡ none
            → (cleanup_children gone b).actions ≡ b.actions)
  unfolding cleanup_children abort_remaining kill_and_remember
  cleanup_children_lem h = (
    λ p q hp hq. ground arith,
    λ p hp hq. ground arith,
    λ q hp hq. ground arith,
    λ hp hq. ground (arith, append_nil b.actions),
  )
