-- ===== src/SessionManager/Calls.antt =====
-- The calls of session_manager_impl.cc as one step function, and what runs of them are.
use chromiumos_platform_logi.Prelude.{ℕ, Bool, Option, List, [], ◌∷◌, Text, Outcome, done, ◌>>=◌}
use chromiumos_platform_logi.SessionManager.{
  Env, Manager, set_flags, stop_session, lock_screen, handle_lock_screen_shown,
  handle_lock_screen_dismissed, emit_login_prompt_ready, emit_login_prompt_visible,
  announce_session_stopping_if_needed, announce_session_stopped,
}
use chromiumos_platform_logi.SessionManager.Sessions.{
  Answers, start_session, restart_job, restart_job_with_auth, enable_chrome_testing,
}
use chromiumos_platform_logi.SessionManager.PolicyCalls.{
  store_policy, store_policy_for_user, store_device_local_account_policy,
  retrieve_device_local_account_policy, start_device_wipe, on_policy_persisted, on_key_persisted,
  import_validate_and_store_generated_key, finalize,
}

pub data Call : Type 0 where
  prompt_ready prompt_visible : Bool → Call
  chrome_testing : Bool → List Text → Call
  start : Answers → Text → Call
  stop lock lock_shown lock_dismissed wipe announce_stopping announce_stopped finalizing : Call
  restart : Answers → Bool → Option (List Text) → Call
  restart_with_auth : Answers → Text → Bool → Option (List Text) → Call
  flags : Text → List Text → Call
  policy : Text → ℕ → Call
  user_policy : Answers → Text → Text → ℕ → Call
  account_policy : Answers → Text → Text → ℕ → Call
  read_account_policy : Answers → Text → Call
  policy_persisted key_persisted : Bool → Call
  import_key : Text → Text → Call

module _ {Disk : Type 0} (env : Env Disk) where
  unfoldable pub run_call : Call → Manager Disk → Outcome (Manager Disk)
  run_call (prompt_ready emitted) m = done (emit_login_prompt_ready emitted m).0
  run_call (prompt_visible emitted) m = done (emit_login_prompt_visible emitted m).0
  run_call (chrome_testing force extra) m = done (enable_chrome_testing env force extra m).0
  run_call (start a email) m = done (start_session env a email m).manager
  run_call stop m = done (stop_session m).0
  run_call lock m = done (lock_screen m).0
  run_call lock_shown m = done (handle_lock_screen_shown m)
  run_call lock_dismissed m = done (handle_lock_screen_dismissed m)
  run_call wipe m = done (start_device_wipe env m).manager
  run_call announce_stopping m = done (announce_session_stopping_if_needed m)
  run_call announce_stopped m = done (announce_session_stopped m)
  run_call finalizing m = done (finalize env m)
  run_call (restart a browser argv) m = done (restart_job env a browser argv m).manager
  run_call (restart_with_auth a cookie browser argv) m =
      done (restart_job_with_auth env a cookie browser argv m).manager
  run_call (flags user fs) m = done (set_flags user fs m)
  run_call (policy blob completion) m = store_policy env blob completion m >>= λ r. done r.0
  run_call (user_policy a user blob completion) m =
      store_policy_for_user env a user blob completion m >>= λ r. done r.0
  run_call (account_policy a id blob completion) m =
      store_device_local_account_policy env a id blob completion m >>= λ r. done r.0
  run_call (read_account_policy a id) m = done (retrieve_device_local_account_policy env a id m).0
  run_call (policy_persisted success) m = done (on_policy_persisted env success m)
  run_call (key_persisted success) m = done (on_key_persisted success m)
  run_call (import_key user file) m = import_validate_and_store_generated_key env user file m

  unfoldable pub run_calls : List Call → Manager Disk → Outcome (Manager Disk)
  run_calls [] m = done m
  run_calls (c ∷ cs) m = run_call c m >>= λ m'. run_calls cs m'
