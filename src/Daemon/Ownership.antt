-- ===== src/Daemon/Ownership.antt =====
-- The user whose key the generator hands back has a session, in whose slot
-- `ImportValidateAndStoreGeneratedKey` of session_manager_impl.cc looks without asking.
use chromiumos_platform_logi.Prelude.{
  ◌≡◌, subst, true, some, List, [], ◌∷◌, is_some, Text, arith, done, >>=-eq-done,
}
use chromiumos_platform_logi.KeyGenerator
use chromiumos_platform_logi.KeyGenerator.{launch, handle_keygen_exit}
use chromiumos_platform_logi.SessionManager.{Env}
use chromiumos_platform_logi.Daemon.{Daemon, Event, step, run}
use chromiumos_platform_logi.Daemon.Requests.{Has}
use chromiumos_platform_logi.Daemon.Owned.{IsOwned, AreLucky, AreLucky-cons, step-IsOwned}

module _ {Disk : Type 0} (env : Env Disk) where
  pub run-IsOwned :
      (es : List Event) (d d' : Daemon Disk)
      → run env es d ≡ done d'
      → AreLucky es
      → IsOwned d
      → IsOwned d'
  unfolding run
  run-IsOwned [] d d' h lucky owned =
      let same : d ≡ d' = cc in subst (λ (x : Daemon Disk). IsOwned x) same owned
  run-IsOwned (e ∷ es) d d' h lucky owned =
      let (t, now, later) = >>=-eq-done (step env e d) (λ t. run env es t) h in
      let (first, rest) = AreLucky-cons e es lucky in
      run-IsOwned es t d' later rest (step-IsOwned env e d t now first owned)

  -- Over any events in which every start of the mitigator that is asked for and every signal to
  -- Upstart succeeds during the calls that start sessions: if no generator ran at first, or one for a
  -- user with a session, then a key that a running generator hands back is for a user who has a
  -- session at that time.
  pub new_key-Has :
      (es : List Event) (d d' : Daemon Disk) (status : KeyGenerator.ExitStatus) (user file : Text)
      → AreLucky es
      → IsOwned d
      → run env es d ≡ done d'
      → is_some d'.service.generator.pid ≡ true
      → (handle_keygen_exit status d'.key_gen d'.service.generator).new_key ≡ some (user, file)
      → Has user d'.manager.user_sessions
  unfolding handle_keygen_exit
  new_key-Has es d d' status user file lucky owned runs running made =
      let has = run-IsOwned es d d' runs lucky owned running in
      let same : d'.key_gen.key_owner_username ≡ user = ground arith in
      subst (λ (u : Text). Has u d'.manager.user_sessions) same has
