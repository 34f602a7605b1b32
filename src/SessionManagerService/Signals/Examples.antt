-- ===== src/SessionManagerService/Signals/Examples.antt =====
-- SIGTERM comes while the pipe takes three bytes at first and the fourth later.
use chromiumos_platform_logi.Prelude.{◌≡◌, refl, true, some, inr, [], ◌∷◌, Text, done, died, arith}
use chromiumos_platform_logi.SessionManagerService.Signals.{
  Process, by_default, sigterm, setup_handlers, handle_signal,
}
use chromiumos_platform_logi.SessionManagerService.Signals.Pipe.{
  all_set, handle_signal-setup_handlers,
}

abbrev process : Process
process = record { handlers = λ s. by_default; pipe_open = true; pipe = [] }

abbrev number : Text
number = 15 ∷ 0 ∷ 0 ∷ 0 ∷ []

handle_signal-setup_handlers_example :
    (q : Process) × (handle_signal
        (λ s. true)
        (some 3 ∷ some 1 ∷ some 1 ∷ some 1 ∷ [])
        sigterm
        number
        (all_set process)
      ≡ done (some q))
    × (q.pipe ≡ number)
    × (handle_signal (λ s. true) [] sigterm number q ≡ died)
unfolding setup_handlers chromiumos_platform_logi.SessionManagerService.Signals.Pipe.IsProgress
handle_signal-setup_handlers_example =
    handle_signal-setup_handlers (λ s. true) process (all_set process)
      (some 3 ∷ some 1 ∷ some 1 ∷ some 1 ∷ []) [] sigterm number (λ s. refl) refl refl
      (inr (inr refl)) tt refl (omega arith)
