-- ===== src/Daemon/Owned.antt =====
-- Each event of the daemon keeps the key generator for a user with a session, as long as no start of
-- the mitigator and no signal to Upstart fails.
use chromiumos_platform_logi.Prelude.{
  ℕ, ◌≡◌, refl, sym, inl, inr, subst, Bool, true, ◌&&◌, Option, none, some, List, [], ◌∷◌, ◌++◌,
  is_some, Text, arith, Option-cases, done, >>=-eq-done,
}
use chromiumos_platform_logi.KeyGenerator
use chromiumos_platform_logi.KeyGenerator.{launch, handle_keygen_exit}
use chromiumos_platform_logi.Liveness
use chromiumos_platform_logi.SessionManager.{
  Env, Effect, Manager, run_key_generator, mitigate_key_loss, announce_session_stopping_if_needed,
  set_browser_session, schedule_shutdown, session_state_changed, login_prompt_visible,
  lock_screen_signal, screen_is_locked, screen_is_unlocked, property_change_complete, owner_key_set,
  upstart_signal, record_stat, send_sample, request_restart, set_flags_for_user,
  restart_browser_with_args,
}
use chromiumos_platform_logi.SessionManager.PolicyCalls.{finalize}
use chromiumos_platform_logi.SessionManager.Calls.{Call, run_call, import_key}
use chromiumos_platform_logi.SessionManagerService
use chromiumos_platform_logi.SessionManagerService.{
  BrowserService, Action, Running, ExitStatus, ExitCode, success, set_browser_session_for_user,
  set_exit_and_shutdown, shutdown, handle_browser_exit, restart_or_stop, run_browser, run_child,
  allow_graceful_exit, abort_browser, deregister_child_watchers, kill_child,
}
use chromiumos_platform_logi.Daemon.{
  Daemon, Fork, Event, called, browser_exited, keygen_exited, ping_due, killed, absorb, absorb_all,
  settle, quiet, start_generator, deliver, deliver_all, after_call, idle_manager, take_call,
  process_new_key, keygen_exit, liveness_check, step,
}
use chromiumos_platform_logi.Daemon.Requests.{Has, Sessions, served, served-append}
use chromiumos_platform_logi.Daemon.Requests.Calls.{IsLuckyCall, run_call-Fine}

-- A generator that runs does so for a user with a session.
abbrev pub IsOwned : {Disk : Type 0} → Daemon Disk → Type 0
IsOwned d =
    is_some d.service.generator.pid ≡ true
    → Has d.key_gen.key_owner_username d.manager.user_sessions

-- No call is answered so that the generator would run for nobody.
unfoldable pub AreLucky : List Event → Type 0
AreLucky [] = Unit
AreLucky (called fork c ∷ es) = IsLuckyCall c × AreLucky es
AreLucky (_ ∷ es) = AreLucky es

pub AreLucky-cons :
    (e : Event) (es : List Event) → AreLucky (e ∷ es) → AreLucky (e ∷ []) × AreLucky es
unfolding AreLucky
AreLucky-cons (called fork c) es (one, rest) = ((one, tt), rest)
AreLucky-cons (browser_exited r should_run pid status) es rest = (tt, rest)
AreLucky-cons (keygen_exited fork status) es rest = (tt, rest)
AreLucky-cons (ping_due answer) es rest = (tt, rest)
AreLucky-cons killed es rest = (tt, rest)

module _ {Disk : Type 0} (env : Env Disk) where
  absorb_sessions :
      (a : Action) (m : Manager Disk) → (absorb env a m).user_sessions ≡ m.user_sessions
  unfolding absorb finalize announce_session_stopping_if_needed
  absorb_sessions a m = ground arith

  absorb_all_sessions :
      (acts : List Action) (m : Manager Disk)
      → (absorb_all env acts m).user_sessions ≡ m.user_sessions
  unfolding absorb_all
  absorb_all_sessions [] m = refl
  absorb_all_sessions (a ∷ acts) m =
      ground (arith, absorb_all_sessions acts (absorb env a m), absorb_sessions a m)

  -- The generator is owned afterwards, and the sessions are what they were.
  abbrev StaysOwned : Daemon Disk → Daemon Disk → Type 0
  StaysOwned d d' = IsOwned d' × (d'.manager.user_sessions ≡ d.manager.user_sessions)

  pub settle-IsOwned :
      (d : Daemon Disk) (b : BrowserService)
      → b.generator.pid ≡ d.service.generator.pid
      → IsOwned d
      → StaysOwned d (settle env d b)
  unfolding settle
  settle-IsOwned d b pid owned = ground (arith, absorb_all_sessions b.actions d.manager)

  start_generator-IsOwned :
      (fork : Fork) (user : Text) (d : Daemon Disk)
      → Has user d.manager.user_sessions
      → IsOwned d
      → StaysOwned d (start_generator env fork user d)
  unfolding start_generator KeyGenerator.start launch
  start_generator-IsOwned fork user d has owned = ground arith

  shutdown_pid :
      (code : ExitCode) (b : BrowserService)
      → ((set_exit_and_shutdown code b).generator.pid ≡ b.generator.pid)
        × ((shutdown b).generator.pid ≡ b.generator.pid)
  unfolding set_exit_and_shutdown shutdown SessionManagerService.finalize deregister_child_watchers
  shutdown_pid code b = ground arith

  deliver-IsOwned :
      (fork : Fork) (e : Effect) (d : Daemon Disk)
      → served d.manager.user_sessions (e ∷ []) ≡ true
      → IsOwned d
      → StaysOwned d (deliver env fork e d)
  unfolding deliver served set_browser_session_for_user SessionManagerService.set_flags_for_user
      SessionManagerService.restart_browser_with_args kill_child
  deliver-IsOwned fork (set_browser_session user hash) d good owned =
      settle-IsOwned d (set_browser_session_for_user user hash (quiet env d)) refl owned
  deliver-IsOwned fork (set_flags_for_user user flags) d good owned =
      settle-IsOwned d (SessionManagerService.set_flags_for_user flags (quiet env d)) refl owned
  deliver-IsOwned fork (restart_browser_with_args args extra) d good owned =
      settle-IsOwned d (SessionManagerService.restart_browser_with_args args extra (quiet env d))
        refl owned
  deliver-IsOwned fork (run_key_generator user) d good owned =
      start_generator-IsOwned fork user d (ground arith) owned
  deliver-IsOwned fork (mitigate_key_loss user) d good owned =
      start_generator-IsOwned fork user d (ground arith) owned
  deliver-IsOwned fork schedule_shutdown d good owned =
      settle-IsOwned d (set_exit_and_shutdown success (quiet env d))
        (shutdown_pid success (quiet env d)).0 owned
  deliver-IsOwned fork (session_state_changed s) d good owned = (owned, refl)
  deliver-IsOwned fork login_prompt_visible d good owned = (owned, refl)
  deliver-IsOwned fork lock_screen_signal d good owned = (owned, refl)
  deliver-IsOwned fork screen_is_locked d good owned = (owned, refl)
  deliver-IsOwned fork screen_is_unlocked d good owned = (owned, refl)
  deliver-IsOwned fork (property_change_complete b) d good owned = (owned, refl)
  deliver-IsOwned fork (owner_key_set b) d good owned = (owned, refl)
  deliver-IsOwned fork (upstart_signal s a) d good owned = (owned, refl)
  deliver-IsOwned fork (record_stat s) d good owned = (owned, refl)
  deliver-IsOwned fork (send_sample s) d good owned = (owned, refl)
  deliver-IsOwned fork request_restart d good owned = (owned, refl)

  served_cons :
      (e : Effect) (es : List Effect) (ss : Sessions)
      → served ss (e ∷ es) ≡ served ss (e ∷ []) && served ss es
  served_cons e es ss = served-append ss (e ∷ []) es

  deliver_all-IsOwned :
      (fork : Fork) (es : List Effect) (d : Daemon Disk)
      → served d.manager.user_sessions es ≡ true
      → IsOwned d
      → IsOwned (deliver_all env fork es d)
  unfolding deliver_all
  deliver_all-IsOwned fork [] d good owned = owned
  deliver_all-IsOwned fork (e ∷ es) d good owned =
      let split = served_cons e es d.manager.user_sessions in
      let (owned', same) = deliver-IsOwned fork e d (ground arith) owned in
      deliver_all-IsOwned fork es (deliver env fork e d)
        (subst (λ (ss : Sessions). served ss es ≡ true) (sym same) (ground arith)) owned'

  take_call-IsOwned :
      (fork : Fork) (c : Call) (d d' : Daemon Disk)
      → take_call env fork c d ≡ done d'
      → IsLuckyCall c
      → IsOwned d
      → IsOwned d'
  unfolding take_call
  take_call-IsOwned fork c d d' h lucky owned =
      let (m, e, e') =
        >>=-eq-done (run_call env c (idle_manager env d)) (λ m. done (after_call env fork d m)) h in
      let (kept, good) =
        run_call-Fine env d.key_gen.key_owner_username c (idle_manager env d) m e lucky refl in
      let same : after_call env fork d m ≡ d' = cc in
      subst (λ (x : Daemon Disk). IsOwned x) same
        (deliver_all-IsOwned fork m.effects
          (record d { manager = record m { effects = [] }; outbox = d.outbox ++ d.manager.effects })
          good (λ p. kept (owned p)))

  process_new_key-IsOwned :
      (fork : Fork) (made : Option (Text × Text)) (d d' : Daemon Disk)
      → process_new_key env fork made d ≡ done d'
      → IsOwned d
      → IsOwned d'
  unfolding process_new_key IsLuckyCall
  process_new_key-IsOwned fork none d d' h owned =
      let same : d ≡ d' = cc in subst (λ (x : Daemon Disk). IsOwned x) same owned
  process_new_key-IsOwned fork (some (user, file)) d d' h owned =
      take_call-IsOwned fork (import_key user file) d d' h tt owned

  keygen_exit-IsOwned :
      (fork : Fork) (status : KeyGenerator.ExitStatus) (d d' : Daemon Disk)
      → keygen_exit env fork status d ≡ done d'
      → IsOwned d'
  unfolding keygen_exit handle_keygen_exit KeyGenerator.abandon
  keygen_exit-IsOwned fork status d d' h =
      let f = handle_keygen_exit status d.key_gen d.service.generator in
      let ended = record d {
        key_gen = f.generator;
        service = record (d.service) { generator = f.spec };
      } in
      process_new_key-IsOwned fork f.new_key ended d' h (λ none_left. cc)

  exit_pid :
      (r : Running) (locked should_run : Bool) (pid : ℕ) (status : ExitStatus)
      (b b' : BrowserService)
      → handle_browser_exit r locked should_run pid status b ≡ done b'
      → b'.generator.pid ≡ b.generator.pid
  unfolding handle_browser_exit restart_or_stop run_browser run_child allow_graceful_exit
      set_exit_and_shutdown shutdown SessionManagerService.finalize deregister_child_watchers
  exit_pid r locked should_run pid status b b' h = ground arith

  check_pid :
      (answer : Liveness.Answer) (b : BrowserService)
      → (liveness_check answer b).generator.pid ≡ b.generator.pid
  unfolding liveness_check abort_browser kill_child
  check_pid answer b = ground arith

  browser_exit-IsOwned :
      (r : Running) (should_run : Bool) (pid : ℕ) (status : ExitStatus) (d d' : Daemon Disk)
      → step env (browser_exited r should_run pid status) d ≡ done d'
      → IsOwned d
      → IsOwned d'
  unfolding step
  browser_exit-IsOwned r should_run pid status d d' h owned =
      let (b, e, e') =
        >>=-eq-done
          (handle_browser_exit r d.manager.screen_locked should_run pid status (quiet env d))
          (λ b. done (settle env d b)) h in
      let same : settle env d b ≡ d' = cc in
      subst (λ (x : Daemon Disk). IsOwned x) same
        (settle-IsOwned d b
          (exit_pid r d.manager.screen_locked should_run pid status (quiet env d) b e) owned).0

  settled :
      (d d' : Daemon Disk) (b : BrowserService)
      → done (settle env d b) ≡ done d'
      → b.generator.pid ≡ d.service.generator.pid
      → IsOwned d
      → IsOwned d'
  settled d d' b h pid owned =
      let same : settle env d b ≡ d' = cc in
      subst (λ (x : Daemon Disk). IsOwned x) same (settle-IsOwned d b pid owned).0

  pub step-IsOwned :
      (e : Event) (d d' : Daemon Disk)
      → step env e d ≡ done d'
      → AreLucky (e ∷ [])
      → IsOwned d
      → IsOwned d'
  unfolding step AreLucky
  step-IsOwned (called fork c) d d' h (lucky, _) owned = take_call-IsOwned fork c d d' h lucky owned
  step-IsOwned (browser_exited r should_run pid status) d d' h lucky owned =
      browser_exit-IsOwned r should_run pid status d d' h owned
  step-IsOwned (keygen_exited fork status) d d' h lucky owned =
      elim (Option-cases d.service.generator.pid) [
        | inl e ↦
            let same : d ≡ d' = ground arith in subst (λ (x : Daemon Disk). IsOwned x) same owned
        | inr (p, e) ↦ keygen_exit-IsOwned fork status d d' (rw (e, step) at h)
      ]
  step-IsOwned (ping_due answer) d d' h lucky owned =
      settled d d' (liveness_check answer (quiet env d)) h (check_pid answer (quiet env d)) owned
  step-IsOwned killed d d' h lucky owned =
      settled d d' (shutdown (quiet env d)) h (shutdown_pid success (quiet env d)).1 owned
