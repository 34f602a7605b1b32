-- ===== src/SessionManagerService/Signals.antt =====
-- session_manager_service.cc: the handlers of the process's signals and the pipe through which a
-- handler stops the main loop. A handler may only make system calls, so the number is sent as it
-- lies in memory.
pub mod Pipe
pub mod Examples
use chromiumos_platform_logi.Prelude.{
  ℕ, zero, suc, ◌+◌, ◌≤◌, ◌≡◌, refl, ◌∙◌, ap, Bool, true, false, Option, none, some, List, [], ◌∷◌,
  ◌++◌, length, take, is_empty, Text, ◌==◌, if◌then◌else◌, Outcome, done, died, ◌>>=◌, arith,
}
use chromiumos_platform_logi.SessionManagerService.{BrowserService, shutdown}

abbrev pub sighup : ℕ
sighup = 1

abbrev pub sigint : ℕ
sigint = 2

abbrev pub sigusr1 : ℕ
sigusr1 = 10

abbrev pub sigalrm : ℕ
sigalrm = 14

abbrev pub sigterm : ℕ
sigterm = 15

pub data Disposition : Type 0 where
  by_default ignored nothing graceful_hup graceful_int graceful_term : Disposition

-- What the process does on each signal, and the pipe: whether both ends are open, and what is in it.
pub record Process : Type 0 where
  pub handlers : ℕ → Disposition
  pub pipe_open : Bool
  pub pipe : Text

-- sigaction(2), whose failure ends the process.
unfoldable pub sigaction : (ℕ → Bool) → ℕ → Disposition → Process → Outcome Process
sigaction accepted signal disposition p =
    if accepted signal
    then done (record p { handlers = λ s. if s == signal then disposition else p.handlers s })
    else died

unfoldable pub setup_handlers : (ℕ → Bool) → Process → Outcome Process
unfolding sigaction
setup_handlers accepted p = sigaction accepted sigusr1 ignored p >>= λ p₁.
    sigaction accepted sigalrm nothing p₁ >>= λ p₂.
    sigaction accepted sigterm graceful_term p₂ >>= λ p₃.
    sigaction accepted sigint graceful_int p₃ >>= λ p₄. sigaction accepted sighup graceful_hup p₄

unfoldable pub revert_handlers : (ℕ → Bool) → Process → Outcome Process
unfolding sigaction
revert_handlers accepted p = sigaction accepted sigusr1 by_default p >>= λ p₁.
    sigaction accepted sigalrm by_default p₁ >>= λ p₂.
    sigaction accepted sigterm by_default p₂ >>= λ p₃.
    sigaction accepted sigint by_default p₃ >>= λ p₄. sigaction accepted sighup by_default p₄

abbrev pub drop : ℕ → Text → Text
drop zero bs = bs
drop (suc n) [] = []
drop (suc n) (b ∷ bs) = drop n bs

-- The loop over the returns of write(2), `none` for an error, with the bytes that are left. `none`
-- while more returns are to come.
unfoldable pub write_out : List (Option ℕ) → Text → Process → Outcome (Option Process)
write_out [] bytes p = done none
write_out (none ∷ rs) bytes p = died
write_out (some rv ∷ rs) bytes p =
    let written = record p { pipe = p.pipe ++ take rv bytes } in
    let rest = write_out rs (drop rv bytes) written in
    if is_empty (drop rv bytes) then done (some written) else rest

-- `bytes` are those of the signal's number.
unfoldable pub graceful_shutdown_handler :
    (ℕ → Bool) → List (Option ℕ) → ℕ → Text → Process → Outcome (Option Process)
unfolding sigaction write_out
graceful_shutdown_handler accepted returns signal bytes p =
    sigaction accepted signal by_default p >>= λ p₁.
    (if p₁.pipe_open then write_out returns bytes p₁ else died)

-- `SIGHUPHandler`, `SIGINTHandler` and `SIGTERMHandler`.
unfoldable pub handle_signal :
    (ℕ → Bool) → List (Option ℕ) → ℕ → Text → Process → Outcome (Option Process)
unfolding graceful_shutdown_handler
handle_signal accepted returns signal bytes p =
    let graceful = graceful_shutdown_handler accepted returns signal bytes p in
    elim (p.handlers signal) [
      | graceful_hup ↦ if signal == sighup then graceful else died
      | graceful_int ↦ if signal == sigint then graceful else died
      | graceful_term ↦ if signal == sigterm then graceful else died
      | nothing ↦ done (some p)
      | ignored ↦ done (some p)
      | by_default ↦ died
    ]

-- Whatever is in the pipe, the service shuts down, and is not told again.
unfoldable pub handle_kill : BrowserService → BrowserService × Bool
handle_kill b = (shutdown b, false)
