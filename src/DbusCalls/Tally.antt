-- ===== src/DbusCalls/Tally.antt =====
-- How often the D-Bus library was asked for what, over a log.
use chromiumos_platform_logi.Prelude.{
  ℕ, ◌+◌, ◌≡◌, Option, none, some, List, [], ◌∷◌, ◌++◌, ◌==◌, if◌then◌else◌, arith,
}
use chromiumos_platform_logi.DbusCalls.{
  BusAction, message_made, message_unreffed, call_made, call_cancelled, call_unreffed,
}

-- How often an action counts, over a log.
unfoldable pub tally : (BusAction → ℕ) → List BusAction → ℕ
tally weight [] = 0
tally weight (a ∷ actions) = weight a + tally weight actions

pub tally-append :
    (weight : BusAction → ℕ) (xs ys : List BusAction)
    → tally weight (xs ++ ys) ≡ tally weight xs + tally weight ys
unfolding tally
tally-append weight [] ys = omega arith
tally-append weight (x ∷ xs) ys = omega (arith, tally-append weight xs ys)

abbrev pub makes : ℕ → BusAction → ℕ
makes p (call_made q) = if q == p then 1 else 0
makes p _ = 0

abbrev pub unrefs : ℕ → BusAction → ℕ
unrefs p (call_unreffed q) = if q == p then 1 else 0
unrefs p _ = 0

abbrev pub cancels : BusAction → ℕ
cancels (call_cancelled q) = 1
cancels _ = 0

abbrev pub makes_message : BusAction → ℕ
makes_message message_made = 1
makes_message _ = 0

abbrev pub unrefs_message : BusAction → ℕ
unrefs_message message_unreffed = 1
unrefs_message _ = 0

abbrev pub holds : ℕ → Option ℕ → ℕ
holds p none = 0
holds p (some q) = if q == p then 1 else 0
