-- ===== src/SessionManagerService/Signals/Pipe.antt =====
-- A signal for the service ends up whole in the pipe, however the writes are cut.
use chromiumos_platform_logi.Prelude.{
  ℕ, zero, suc, ◌≤◌, ◌≡◌, refl, ◌∙◌, sym, ap, subst, ◌⊎◌, inl, inr, Bool, true, false, Option, none,
  some, List, [], ◌∷◌, ◌++◌, length, take, is_empty, Text, ◌==◌, if◌then◌else◌, Outcome, done, died,
  Bool-cases, arith, append_nil,
}
use mathlib.Core.List.{append_assoc}
use chromiumos_platform_logi.SessionManagerService.Signals.{
  Process, Disposition, by_default, graceful_hup, graceful_int, graceful_term, sighup, sigint,
  sigterm, sigusr1, sigalrm, ignored, nothing, sigaction, setup_handlers, drop, write_out,
  graceful_shutdown_handler, handle_signal,
}

-- Every return counts at least one byte.
unfoldable pub IsProgress : List (Option ℕ) → Type 0
IsProgress [] = Unit
IsProgress (none ∷ rs) = ⊥
IsProgress (some zero ∷ rs) = ⊥
IsProgress (some (suc n) ∷ rs) = IsProgress rs

take-drop : (n : ℕ) (bs : Text) → take n bs ++ drop n bs ≡ bs
take-drop zero bs = refl
take-drop (suc n) [] = refl
take-drop (suc n) (b ∷ bs) = ap (◌∷◌ b) (take-drop n bs)

drop_shorter : (n k : ℕ) (bs : Text) → length bs ≤ suc k → length (drop (suc n) bs) ≤ k
drop_shorter n k [] h = omega arith
drop_shorter n k (b ∷ bs) h = omega (arith, drop_le n bs, h)
  where
    drop_le : (n : ℕ) (bs : Text) → length (drop n bs) ≤ length bs
    drop_le zero bs = omega arith
    drop_le (suc n) [] = omega arith
    drop_le (suc n) (b ∷ bs) = omega (arith, drop_le n bs)

write_out_step :
    (rs : List (Option ℕ)) (rv : ℕ) (bytes : Text) (p : Process)
    → is_empty (drop rv bytes) ≡ false
    → write_out (some rv ∷ rs) bytes p
      ≡ write_out rs (drop rv bytes) (record p { pipe = p.pipe ++ take rv bytes })
unfolding write_out
write_out_step rs rv bytes p h = rw h refl

write_out_end :
    (rs : List (Option ℕ)) (rv : ℕ) (bytes : Text) (p : Process)
    → is_empty (drop rv bytes) ≡ true
    → write_out (some rv ∷ rs) bytes p ≡ done (some (record p { pipe = p.pipe ++ take rv bytes }))
unfolding write_out
write_out_end rs rv bytes p h = rw h refl

empty_nil : (bs : Text) → is_empty bs ≡ true → bs ≡ []
empty_nil [] h = refl
empty_nil (b ∷ bs) h = cc

take_all : (n : ℕ) (bs : Text) → is_empty (drop n bs) ≡ true → take n bs ≡ bs
take_all n bs h =
    sym (append_nil (take n bs))
    ∙ ap (λ (q : Text). take n bs ++ q) (sym (empty_nil (drop n bs) h))
    ∙ take-drop n bs

-- The bytes in the pipe, all of them once.
abbrev with_bytes : Process → Text → Outcome (Option Process)
with_bytes p bytes = done (some (record p { pipe = bytes }))

write_out_lem :
    (rs : List (Option ℕ)) (bytes : Text) (p : Process)
    → IsProgress rs
    → is_empty bytes ≡ false
    → length bytes ≤ length rs
    → write_out rs bytes p ≡ with_bytes p (p.pipe ++ bytes)
unfolding IsProgress
write_out_lem [] [] p progress filled enough = cc
write_out_lem [] (b ∷ bytes) p progress filled enough =
    let bad : ⊥ = omega (arith, enough) in absurd bad
write_out_lem (none ∷ rs) bytes p progress filled enough = absurd progress
write_out_lem (some zero ∷ rs) bytes p progress filled enough = absurd progress
write_out_lem (some (suc n) ∷ rs) bytes p progress filled enough =
    let cut = drop (suc n) bytes in
    elim (Bool-cases (is_empty cut)) [
      | inl e ↦
          write_out_end rs (suc n) bytes p e
          ∙ ap (λ (q : Text). with_bytes p (p.pipe ++ q)) (take_all (suc n) bytes e)
      | inr e ↦
          write_out_step rs (suc n) bytes p e
          ∙ write_out_lem rs cut (record p { pipe = p.pipe ++ take (suc n) bytes }) progress e
              (drop_shorter n (length rs) bytes enough)
          ∙ ap (with_bytes p) (
              append_assoc p.pipe (take (suc n) bytes) cut
              ∙ ap (λ (q : Text). p.pipe ++ q) (take-drop (suc n) bytes))
    ]

abbrev pub IsStop : ℕ → Type 0
IsStop signal = (signal ≡ sighup) ⊎ ((signal ≡ sigint) ⊎ (signal ≡ sigterm))

abbrev pub set : ℕ → Disposition → Process → Process
set signal disposition p = record p {
  handlers = λ s. if s == signal then disposition else p.handlers s;
}

abbrev pub all_set : Process → Process
all_set p = set sighup graceful_hup (
    set sigint graceful_int
      (set sigterm graceful_term (set sigalrm nothing (set sigusr1 ignored p))))

if_true : {A : Type 0} {x : A} (y : A) (b : Bool) → b ≡ true → (if b then x else y) ≡ x
if_true y b h = rw h refl

module _ (accepted : ℕ → Bool) (all_accepted : (s : ℕ) → accepted s ≡ true) where
  setup_lem : (p : Process) → setup_handlers accepted p ≡ done (all_set p)
  unfolding setup_handlers sigaction
  setup_lem p =
      rw
        (
          all_accepted sigusr1,
          all_accepted sigalrm,
          all_accepted sigterm,
          all_accepted sigint,
          all_accepted sighup,
        )
        refl

  graceful_lem :
      (rs : List (Option ℕ)) (signal : ℕ) (bytes : Text) (p : Process)
      → p.pipe_open ≡ true
      → IsProgress rs
      → is_empty bytes ≡ false
      → length bytes ≤ length rs
      → graceful_shutdown_handler accepted rs signal bytes p
        ≡ with_bytes (set signal by_default p) (p.pipe ++ bytes)
  unfolding graceful_shutdown_handler sigaction
  graceful_lem rs signal bytes p opened progress filled enough = rw (all_accepted signal) (
      if_true died p.pipe_open opened
      ∙ write_out_lem rs bytes (set signal by_default p) progress filled enough)

  abbrev Stopped : List (Option ℕ) → List (Option ℕ) → Text → Process → ℕ → Type 0
  Stopped rs rs' bytes p signal =
      (q : Process) × (handle_signal accepted rs signal bytes (all_set p) ≡ done (some q))
      × (q.pipe ≡ p.pipe ++ bytes)
      × (handle_signal accepted rs' signal bytes q ≡ died)

  stopped_lem :
      (rs rs' : List (Option ℕ)) (signal : ℕ) (bytes : Text) (p : Process)
      → p.pipe_open ≡ true
      → IsStop signal
      → IsProgress rs
      → is_empty bytes ≡ false
      → length bytes ≤ length rs
      → Stopped rs rs' bytes p signal
  unfolding handle_signal
  stopped_lem rs rs' signal bytes p opened stop progress filled enough = elim stop [
    | inl e ↦ subst (Stopped rs rs' bytes p) (sym e) (after sighup, graceful sighup, refl, refl)
    | inr (inl e) ↦
        subst (Stopped rs rs' bytes p) (sym e) (after sigint, graceful sigint, refl, refl)
    | inr (inr e) ↦
        subst (Stopped rs rs' bytes p) (sym e) (after sigterm, graceful sigterm, refl, refl)
  ]
    where
      after : ℕ → Process
      after number = record (set number by_default (all_set p)) { pipe = p.pipe ++ bytes }

      graceful :
          (number : ℕ)
          → graceful_shutdown_handler accepted rs number bytes (all_set p)
            ≡ done (some (after number))
      graceful number = graceful_lem rs number bytes (all_set p) opened progress filled enough

-- Once the handlers are set up with no call refused, and while the pipe is open: the first hangup,
-- interrupt or termination leaves all the bytes of its number in the pipe, once and in order,
-- however the writes are cut, if each of them takes some and as many come as there are bytes; the
-- default action is then back for that signal, so that a second one ends the process.
pub handle_signal-setup_handlers :
    (accepted : ℕ → Bool) (p q : Process) (rs rs' : List (Option ℕ)) (signal : ℕ) (bytes : Text)
    → ((s : ℕ) → accepted s ≡ true)
    → p.pipe_open ≡ true
    → setup_handlers accepted p ≡ done q
    → IsStop signal
    → IsProgress rs
    → is_empty bytes ≡ false
    → length bytes ≤ length rs
    → (q' : Process) × (handle_signal accepted rs signal bytes q ≡ done (some q'))
      × (q'.pipe ≡ p.pipe ++ bytes)
      × (handle_signal accepted rs' signal bytes q' ≡ died)
handle_signal-setup_handlers accepted p q rs rs' signal bytes all_accepted opened ready stop
      progress filled enough =
    let same : q ≡ all_set p = go (setup_lem accepted all_accepted p) ready in
    rw same
      (stopped_lem accepted all_accepted rs rs' signal bytes p opened stop progress filled enough)
  where
    go : {r : Outcome Process} {a b : Process} → r ≡ done a → r ≡ done b → b ≡ a
    go e e' = cc
