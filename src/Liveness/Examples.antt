-- ===== src/Liveness/Examples.antt =====
-- Runs of liveness_checker_impl.cc: a browser that answers, and one that does not.
use chromiumos_platform_logi.Prelude.{◌≡◌, refl, arith, true, false, some, none, [], ◌∷◌}
use chromiumos_platform_logi.Liveness.{Checker, new, run, timer, returned, missing, is_running}
use chromiumos_platform_logi.Liveness.Hangs.{silent_aborted}

-- One ping is out, and returned by the next check.
abbrev answering : Checker
answering = record (new true) { outstanding_ping = some 4; pending = true; next_ping = 5 }

silent_aborted_example :
    let sent = run answering (timer returned ∷ []) in
    let t = run sent (timer missing ∷ []) in
    (sent.outstanding_ping ≡ some 5)
    × (sent.aborts ≡ 0)
    × (t.aborts ≡ 1)
    × (is_running t ≡ false)
    × (t.outstanding_ping ≡ none)
    × (run t (timer missing ∷ []) ≡ t)
unfolding new is_running
silent_aborted_example =
    silent_aborted answering returned missing missing refl refl (λ h. refl) (λ h. ground arith)
