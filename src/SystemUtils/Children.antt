-- ===== src/SystemUtils/Children.antt =====
-- Waiting for a child, and signalling it under its own user.
use chromiumos_platform_logi.Prelude.{
  ℕ, ◌≤◌, ◌<◌, ◌≡◌, true, false, none, some, List, [], ◌∷◌, ◌++◌, arith,
}
use chromiumos_platform_logi.SystemUtils.{
  Wait, reaped, interrupted, no_child, other_error, child_is_gone, KillAnswers, Credentials, kill,
}

-- A return of waitpid that the loop goes on after.
abbrev pub Goes : ℕ → Wait → Type 0
Goes timeout reaped = Unit
Goes timeout (interrupted elapsed) = elapsed < timeout
Goes timeout no_child = ⊥
Goes timeout other_error = ⊥

abbrev pub AllGo : ℕ → List Wait → Type 0
AllGo timeout [] = Unit
AllGo timeout (w ∷ ws) = Goes timeout w × AllGo timeout ws

-- However often children are reaped or signals come in before the timeout, the wait goes on; it
-- ends true when no child is left, and false at the first signal from the timeout on.
pub child_is_gone_lem :
    (timeout elapsed : ℕ) (before later : List Wait)
    → AllGo timeout before
    → timeout ≤ elapsed
    → (child_is_gone timeout before ≡ none)
      × (child_is_gone timeout (before ++ no_child ∷ later) ≡ some true)
      × (child_is_gone timeout (before ++ interrupted elapsed ∷ later) ≡ some false)
unfolding child_is_gone
child_is_gone_lem timeout elapsed [] later go late = ground arith
child_is_gone_lem timeout elapsed (reaped ∷ before) later go late =
    child_is_gone_lem timeout elapsed before later go.1 late
child_is_gone_lem timeout elapsed (interrupted e ∷ before) later go late =
    ground (arith, child_is_gone_lem timeout elapsed before later go.1 late)
child_is_gone_lem timeout elapsed (no_child ∷ before) later go late = absurd go.0
child_is_gone_lem timeout elapsed (other_error ∷ before) later go late = absurd go.0

-- The process has its own credentials back whenever `kill` reports success, and a signal goes out
-- only under the user that owns the target.
pub kill_lem :
    (os : KillAnswers) (c : Credentials) (owner : ℕ)
    → ((kill os c owner).success ≡ true
        → ((kill os c owner).after ≡ c) × ((kill os c owner).sent ≡ true))
      × ((kill os c owner).sent ≡ true → os.assumed ≡ true)
      × (os.assumed ≡ false → (kill os c owner).after ≡ c)
unfolding kill
kill_lem os c owner = ground arith
