-- ===== src/DbusCalls/Examples.antt =====
-- A liveness checker over the bus: three pings, of which one is answered late and one in time.
use chromiumos_platform_logi.Prelude.{
  ℕ, ◌≡◌, refl, false, some, none, List, [], ◌∷◌, length, is_some, map, done,
}
use chromiumos_platform_logi.Liveness
use chromiumos_platform_logi.DbusCalls.{pending_call, method_return}
use chromiumos_platform_logi.DbusCalls.Pinger.{Pinger, Event, started, timer, new, run, destroy}
use chromiumos_platform_logi.DbusCalls.Tally.{
  tally, makes, unrefs, cancels, makes_message, unrefs_message,
}
use chromiumos_platform_logi.DbusCalls.Handles.{seen, run-destroy}

abbrev three_pings : List Event
three_pings =
    started
    ∷ timer none (pending_call 7)
    ∷ timer none (pending_call 8)
    ∷ timer (some method_return) (pending_call 9)
    ∷ []

run-destroy_example :
    let t = Liveness.run (Liveness.new false) (map seen three_pings) in
    (s gone : Pinger) × (run (new false) three_pings ≡ done s)
    × (s.enable_aborting ≡ t.enable_aborting)
    × (s.pending ≡ t.pending)
    × (s.aborts ≡ t.aborts)
    × (is_some s.outstanding_liveness_ping ≡ is_some t.outstanding_ping)
    × (tally cancels s.log ≡ length t.cancelled)
    × (destroy s ≡ done gone)
    × ((p : ℕ) → tally (makes p) gone.log ≡ tally (unrefs p) gone.log)
    × (tally makes_message gone.log ≡ tally unrefs_message gone.log)
run-destroy_example = run-destroy false three_pings ((7, refl), ((8, refl), ((9, refl), tt)))
