-- ===== src/Daemon/Locked.antt =====
-- No browser is started behind a locked screen: `HandleBrowserExit` of session_manager_service.cc with
-- the manager's word on the screen, and everything else that happens to the daemon.
use chromiumos_platform_logi.Prelude.{
  ℕ, ◌+◌, ◌≡◌, refl, ◌∙◌, subst, Bool, true, Option, none, some, List, [], ◌∷◌, ◌++◌, Text, arith,
  inl, inr, Option-cases, done, >>=-eq-done,
}
use chromiumos_platform_logi.KeyGenerator
use chromiumos_platform_logi.Liveness
use chromiumos_platform_logi.SessionManager.{
  Env, Effect, run_key_generator, mitigate_key_loss, set_browser_session, schedule_shutdown,
  session_state_changed, login_prompt_visible, lock_screen_signal, screen_is_locked,
  screen_is_unlocked, property_change_complete, owner_key_set, upstart_signal, record_stat,
  send_sample, request_restart, set_flags_for_user, restart_browser_with_args,
}
use chromiumos_platform_logi.SessionManager.Calls.{Call, run_call, import_key}
use chromiumos_platform_logi.SessionManagerService
use chromiumos_platform_logi.SessionManagerService.{
  BrowserService, Action, Running, ExitStatus, ExitCode, success, set_browser_session_for_user,
  set_exit_and_shutdown, shutdown, handle_browser_exit, abort_browser, deregister_child_watchers,
  kill_child,
}
use chromiumos_platform_logi.Daemon.{
  Daemon, Fork, Event, called, browser_exited, keygen_exited, ping_due, killed, execs, settle,
  quiet, start_generator, deliver, deliver_all, after_call, idle_manager, take_call,
  process_new_key, keygen_exit, liveness_check, step,
}

pub execs-append : (xs ys : List Action) → execs (xs ++ ys) ≡ execs xs + execs ys
unfolding execs
execs-append [] ys = omega arith
execs-append (x ∷ xs) ys = ground (arith, execs-append xs ys)

pub finalize-execs :
    (b : BrowserService)
    → b.actions ≡ []
    → (execs (SessionManagerService.finalize b).actions ≡ 0)
      × ((SessionManagerService.finalize b).browser_pid ≡ b.browser_pid)
unfolding SessionManagerService.finalize deregister_child_watchers execs
finalize-execs b fresh = ground arith

shutdown-execs :
    (code : ExitCode) (b : BrowserService)
    → b.actions ≡ []
    → (execs (set_exit_and_shutdown code b).actions ≡ 0) × (execs (shutdown b).actions ≡ 0)
unfolding set_exit_and_shutdown shutdown SessionManagerService.finalize deregister_child_watchers
    execs
shutdown-execs code b fresh = ground arith

locked_exit_execs :
    (r : Running) (should_run : Bool) (pid : ℕ) (status : ExitStatus) (b b' : BrowserService)
    → b.actions ≡ []
    → handle_browser_exit r true should_run pid status b ≡ done b'
    → execs b'.actions ≡ 0
unfolding handle_browser_exit set_exit_and_shutdown shutdown SessionManagerService.finalize
    deregister_child_watchers execs
locked_exit_execs r should_run pid status b b' fresh h = ground arith

check_execs :
    (answer : Liveness.Answer) (b : BrowserService)
    → b.actions ≡ []
    → execs (liveness_check answer b).actions ≡ 0
unfolding liveness_check abort_browser kill_child execs
check_execs answer b fresh = ground arith

module _ {Disk : Type 0} (env : Env Disk) where
  abbrev SameExecs : Daemon Disk → Daemon Disk → Type 0
  SameExecs d d' = execs d'.service.actions ≡ execs d.service.actions

  settle-execs :
      (d : Daemon Disk) (b : BrowserService) → execs b.actions ≡ 0 → SameExecs d (settle env d b)
  unfolding settle
  settle-execs d b none_new = omega (arith, execs-append d.service.actions b.actions, none_new)

  deliver_execs : (fork : Fork) (e : Effect) (d : Daemon Disk) → SameExecs d (deliver env fork e d)
  unfolding deliver start_generator set_browser_session_for_user
      SessionManagerService.set_flags_for_user SessionManagerService.restart_browser_with_args
      kill_child execs
  deliver_execs fork (set_browser_session user hash) d =
      settle-execs d (set_browser_session_for_user user hash (quiet env d)) refl
  deliver_execs fork (set_flags_for_user user flags) d =
      settle-execs d (SessionManagerService.set_flags_for_user flags (quiet env d)) refl
  deliver_execs fork (restart_browser_with_args args extra) d =
      settle-execs d (SessionManagerService.restart_browser_with_args args extra (quiet env d)) refl
  deliver_execs fork (run_key_generator user) d = refl
  deliver_execs fork (mitigate_key_loss user) d = refl
  deliver_execs fork schedule_shutdown d =
      settle-execs d (set_exit_and_shutdown success (quiet env d))
        (shutdown-execs success (quiet env d) refl).0
  deliver_execs fork (session_state_changed s) d = refl
  deliver_execs fork login_prompt_visible d = refl
  deliver_execs fork lock_screen_signal d = refl
  deliver_execs fork screen_is_locked d = refl
  deliver_execs fork screen_is_unlocked d = refl
  deliver_execs fork (property_change_complete b) d = refl
  deliver_execs fork (owner_key_set b) d = refl
  deliver_execs fork (upstart_signal s a) d = refl
  deliver_execs fork (record_stat s) d = refl
  deliver_execs fork (send_sample s) d = refl
  deliver_execs fork request_restart d = refl

  deliver_all_execs :
      (fork : Fork) (es : List Effect) (d : Daemon Disk) → SameExecs d (deliver_all env fork es d)
  unfolding deliver_all
  deliver_all_execs fork [] d = refl
  deliver_all_execs fork (e ∷ es) d =
      deliver_all_execs fork es (deliver env fork e d) ∙ deliver_execs fork e d

  take_call_execs :
      (fork : Fork) (c : Call) (d d' : Daemon Disk)
      → take_call env fork c d ≡ done d'
      → SameExecs d d'
  unfolding take_call
  take_call_execs fork c d d' h =
      let (m, e, e') =
        >>=-eq-done (run_call env c (idle_manager env d)) (λ m. done (after_call env fork d m)) h in
      let same : after_call env fork d m ≡ d' = cc in
      subst (λ (x : Daemon Disk). SameExecs d x) same
        (deliver_all_execs fork m.effects (record d {
          manager = record m { effects = [] };
          outbox = d.outbox ++ d.manager.effects;
        }))

  new_key_execs :
      (fork : Fork) (key : Option (Text × Text)) (d d' : Daemon Disk)
      → process_new_key env fork key d ≡ done d'
      → SameExecs d d'
  unfolding process_new_key
  new_key_execs fork none d d' h =
      let same : d ≡ d' = cc in subst (λ (x : Daemon Disk). SameExecs d x) same refl
  new_key_execs fork (some (user, file)) d d' h = take_call_execs fork (import_key user file) d d' h

  settled_execs :
      (d d' : Daemon Disk) (b : BrowserService)
      → done (settle env d b) ≡ done d'
      → execs b.actions ≡ 0
      → SameExecs d d'
  settled_execs d d' b h none_new =
      let same : settle env d b ≡ d' = cc in
      subst (λ (x : Daemon Disk). SameExecs d x) same (settle-execs d b none_new)

  locked_browser_exit :
      (r : Running) (should_run : Bool) (pid : ℕ) (status : ExitStatus) (d d' : Daemon Disk)
      → d.manager.screen_locked ≡ true
      → step env (browser_exited r should_run pid status) d ≡ done d'
      → SameExecs d d'
  unfolding step
  locked_browser_exit r should_run pid status d d' locked h =
      let (b, e, e') =
        >>=-eq-done
          (handle_browser_exit r d.manager.screen_locked should_run pid status (quiet env d))
          (λ b. done (settle env d b)) h in
      settled_execs d d' b e' (
        locked_exit_execs r should_run pid status (quiet env d) b refl (
          subst (λ (l : Bool). handle_browser_exit r l should_run pid status (quiet env d) ≡ done b)
            locked e))

  -- Whatever happens while the screen is locked, no browser is started by it: not the exit of the
  -- one that shows the lock, and no call.
  pub step-locked-execs :
      (e : Event) (d d' : Daemon Disk)
      → d.manager.screen_locked ≡ true
      → step env e d ≡ done d'
      → execs d'.service.actions ≡ execs d.service.actions
  unfolding step keygen_exit
  step-locked-execs (called fork c) d d' locked h = take_call_execs fork c d d' h
  step-locked-execs (browser_exited r should_run pid status) d d' locked h =
      locked_browser_exit r should_run pid status d d' locked h
  step-locked-execs (keygen_exited fork status) d d' locked h =
      elim (Option-cases d.service.generator.pid) [
        | inl e ↦
            let same : d ≡ d' = ground arith in subst (λ (x : Daemon Disk). SameExecs d x) same refl
        | inr (p, e) ↦
            let f = KeyGenerator.handle_keygen_exit status d.key_gen d.service.generator in
            new_key_execs fork f.new_key
              (record d {
                key_gen = f.generator;
                service = record (d.service) { generator = f.spec };
              })
              d' (rw (e, step) at h)
      ]
  step-locked-execs (ping_due answer) d d' locked h =
      settled_execs d d' (liveness_check answer (quiet env d)) h
        (check_execs answer (quiet env d) refl)
  step-locked-execs killed d d' locked h =
      settled_execs d d' (shutdown (quiet env d)) h (shutdown-execs success (quiet env d) refl).1
