-- ===== src/SessionManagerService/Exits.antt =====
-- What follows the exit of the browser in session_manager_service.cc, by the times of its starts.
use chromiumos_platform_logi.Prelude.{
  ℕ, suc, ◌+◌, ◌<◌, ◌≤◌, ◌≡◌, refl, ◌∙◌, Bool, true, false, some, List, [], ◌∷◌, ◌++◌, Text, arith,
  done, if◌then◌else◌,
}
use chromiumos_platform_logi.ChildJob
use chromiumos_platform_logi.ChildJob.{ChildJob, restart_window_seconds}
use chromiumos_platform_logi.ChildJob.Restarts.{record_all, should_stop-iff-fourth_start}
use chromiumos_platform_logi.Liveness
use chromiumos_platform_logi.Liveness.{is_running}
use chromiumos_platform_logi.SessionManagerService.{
  Running, BrowserService, Action, quit_posted, shutdown_posted, chrome_exec_recorded, ExitStatus,
  ExitCode, crash_while_screen_locked, child_exiting_too_fast, run_browser, run_child,
  set_exit_and_shutdown, shutdown, finalize, deregister_child_watchers, allow_graceful_exit,
  is_browser, restart_or_stop, handle_browser_exit,
}

-- How often the main loop was told to quit, the service posted its own shutdown, and a browser was
-- started.
unfoldable pub quits : List Action → ℕ
quits [] = 0
quits (quit_posted ∷ rest) = suc (quits rest)
quits (_ ∷ rest) = quits rest

unfoldable pub own_shutdowns : List Action → ℕ
own_shutdowns [] = 0
own_shutdowns (shutdown_posted ∷ rest) = suc (own_shutdowns rest)
own_shutdowns (_ ∷ rest) = own_shutdowns rest

unfoldable pub starts : List Action → ℕ
starts [] = 0
starts (chrome_exec_recorded ∷ rest) = suc (starts rest)
starts (_ ∷ rest) = starts rest

-- The service ends: the loop is told to quit once, the code is set, nothing is started or watched.
abbrev pub Ends : ExitCode → BrowserService → Type 0
Ends code b' =
    (quits b'.actions ≡ 1)
    × (own_shutdowns b'.actions ≡ 0)
    × (starts b'.actions ≡ 0)
    × (b'.exit_code ≡ code)
    × (is_running b'.liveness_checker ≡ false)

-- One browser is started in the old one's place, and its start is on record.
abbrev pub Restarts : Running → BrowserService → BrowserService → Type 0
Restarts r b b' =
    (quits b'.actions ≡ 0)
    × (own_shutdowns b'.actions ≡ 0)
    × (starts b'.actions ≡ 1)
    × (b'.exit_code ≡ b.exit_code)
    × (b'.browser_pid ≡ r.forked)
    × (b'.browser.start_times ≡ (ChildJob.record_time b.browser r.now).start_times)
    × (is_running b'.liveness_checker ≡ true)

-- Nothing is started, and the service posts its shutdown if it was told to when its child is done.
abbrev pub Rests : BrowserService → BrowserService → Type 0
Rests b b' =
    (quits b'.actions ≡ 0)
    × (own_shutdowns b'.actions ≡ (if b.exit_on_child_done then 1 else 0))
    × (b'.shutting_down ≡ b.exit_on_child_done)
    × (starts b'.actions ≡ 0)
    × (b'.exit_code ≡ b.exit_code)
    × (is_running b'.liveness_checker ≡ false)

not_true : (x : Bool) → (x ≡ true → ⊥) → x ≡ false
not_true true absent = absurd (absent refl)
not_true false absent = refl

too_soon : {a b : ℕ} → a ≤ b → b < a → ⊥
too_soon h h' = omega arith

module _ (r : Running) (should_run : Bool) (pid : ℕ) (status : ExitStatus)
    (b b' : BrowserService) where
  locked_exit :
      b.actions ≡ []
      → b.shutting_down ≡ false
      → handle_browser_exit r true should_run pid status b ≡ done b'
      → Ends crash_while_screen_locked b'
  unfolding handle_browser_exit set_exit_and_shutdown shutdown finalize deregister_child_watchers
      Liveness.stop is_running quits own_shutdowns starts
  locked_exit idle up h = ground arith

  fast_exit :
      b.actions ≡ []
      → b.shutting_down ≡ false
      → ChildJob.should_stop b.browser r.now ≡ true
      → handle_browser_exit r false should_run pid status b ≡ done b'
      → Ends child_exiting_too_fast b'
  unfolding handle_browser_exit restart_or_stop set_exit_and_shutdown shutdown finalize
      deregister_child_watchers Liveness.stop is_running quits own_shutdowns starts
  fast_exit idle up fast h = ground arith

  slow_exit :
      b.actions ≡ []
      → b.shutting_down ≡ false
      → ChildJob.should_stop b.browser r.now ≡ false
      → handle_browser_exit r false should_run pid status b ≡ done b'
      → (should_run ≡ true → Restarts r b b') × (should_run ≡ false → Rests b b')
  unfolding handle_browser_exit restart_or_stop run_browser run_child allow_graceful_exit
      ChildJob.set_one_time_arguments ChildJob.clear_one_time_arguments ChildJob.record_time
      Liveness.start Liveness.stop is_running quits own_shutdowns starts
  slow_exit idle up slow h = ground arith

  down_exit :
      (locked : Bool)
      → b.actions ≡ []
      → b.shutting_down ≡ true
      → handle_browser_exit r locked should_run pid status b ≡ done b'
      → (quits b'.actions ≡ 0) × (own_shutdowns b'.actions ≡ 0) × (starts b'.actions ≡ 0)
  unfolding handle_browser_exit quits own_shutdowns starts
  down_exit locked idle down h = ground arith

  known_exit :
      (locked : Bool)
      → b.shutting_down ≡ false
      → handle_browser_exit r locked should_run pid status b ≡ done b'
      → b.browser_pid ≡ some pid
  unfolding handle_browser_exit is_browser
  known_exit locked up h = ground arith

  same_times :
      (j : ChildJob)
      → b.browser.start_times ≡ j.start_times
      → ChildJob.should_stop b.browser r.now ≡ ChildJob.should_stop j r.now
  unfolding ChildJob.should_stop
  same_times j e = ground arith

  -- An exit that is handled to its end, where nothing had been asked yet and the browser was started
  -- four times or more, the fourth last at `t₁`. While the service shuts down nothing follows. Else
  -- the child was the browser. With the screen locked the loop is told to quit once, with the code for
  -- it; so it is, with another code, if the exit comes within 60 seconds of `t₁`; no browser is
  -- started in either case. If it comes later, one browser is started and its start recorded, where
  -- one should run; where none should, the service posts its shutdown exactly if it was told to.
  pub handle_browser_exit_lem :
      (screen_locked : Bool) (args : List Text) (multi : Bool) (older : List ℕ) (t₁ t₂ t₃ t₄ : ℕ)
      → b.actions ≡ []
      → b.browser.start_times
        ≡ (record_all (ChildJob.new args multi) (older ++ t₁ ∷ t₂ ∷ t₃ ∷ t₄ ∷ [])).start_times
      → handle_browser_exit r screen_locked should_run pid status b ≡ done b'
      → (b.shutting_down ≡ true
          → (quits b'.actions ≡ 0) × (own_shutdowns b'.actions ≡ 0) × (starts b'.actions ≡ 0))
        × (b.shutting_down ≡ false
            → (b.browser_pid ≡ some pid)
              × (screen_locked ≡ true → Ends crash_while_screen_locked b')
              × (screen_locked ≡ false
                  → r.now < t₁ + restart_window_seconds
                  → Ends child_exiting_too_fast b')
              × (screen_locked ≡ false
                  → t₁ + restart_window_seconds ≤ r.now
                  → (should_run ≡ true → Restarts r b b') × (should_run ≡ false → Rests b b')))
  handle_browser_exit_lem locked args multi older t₁ t₂ t₃ t₄ idle times h =
      let job = record_all (ChildJob.new args multi) (older ++ t₁ ∷ t₂ ∷ t₃ ∷ t₄ ∷ []) in
      let rule = should_stop-iff-fourth_start args multi older t₁ t₂ t₃ t₄ r.now in
      let same = same_times job times in
      (
        λ down. down_exit locked idle down h,
        λ up. (
          known_exit locked up h,
          λ e. locked_exit idle up (rw e at h),
          λ e soon. fast_exit idle up (same ∙ rule.1 soon) (rw e at h),
          λ e late.
              slow_exit idle up (same ∙ not_true _ (λ yes. too_soon late (rule.0 yes))) (rw e at h),
        ),
      )
