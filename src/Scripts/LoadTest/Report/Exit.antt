-- ===== src/Scripts/LoadTest/Report/Exit.antt =====
-- The exit status of scripts/loadtest.go, against what the goroutines counted.
use go_loadbalancer.Prelude.{
  ℕ, ◌^◌, ◌<◌, ◌≡◌, refl, ◌≢◌, ◌⊎◌, ◌↔◌, arith, Bool, true, false, Option, none, some, All,
}
use go_loadbalancer.Scripts.LoadTest.{Settings, Shared, Pool, finished, Reach}
use go_loadbalancer.Scripts.LoadTest.Ends.{finished_counts}
use go_loadbalancer.Scripts.LoadTest.Report.{exit_status}

exit-failures :
    (json : Option Bool) (s : Shared)
    → json ≢ some false
    → s.failure < 2 ^ 31
    → ((exit_status json s ≡ 0) ⊎ (exit_status json s ≡ 2))
      × ((exit_status json s ≡ 0) ↔ (s.failure ≡ 0))
unfolding exit_status
exit-failures none s fine small = (ground arith, ground arith)
exit-failures (some true) s fine small = (ground arith, ground arith)
exit-failures (some false) s fine small = absurd (fine refl)

-- With at least one worker and fewer than 2^31 requests, and unless the file of the JSON summary could
-- not be created, the load test exits with 0 if every request was a success, and with 2 otherwise,
-- once all workers have returned, however its goroutines interleaved.
pub exit_status-Reach :
    (st : Settings) (concurrency n : ℕ) (p : Pool) (json : Option Bool)
    → st.requests < 2 ^ 31
    → 0 < concurrency
    → json ≢ some false
    → Reach st concurrency n p
    → All (λ w. w ≡ finished) p.workers
    → ((exit_status json p.shared ≡ 0) ⊎ (exit_status json p.shared ≡ 2))
      × ((exit_status json p.shared ≡ 0) ↔ (p.shared.success ≡ st.requests))
exit_status-Reach st c n p json few some_worker fine r all =
    let (total, results) = finished_counts st c n p few some_worker r all in
    let (either, zero_iff) = exit-failures json p.shared fine (omega (arith, results, few)) in
    (
      either,
      ((λ e. omega (arith, zero_iff.0 e, results)), λ e. zero_iff.1 (omega (arith, e, results))),
    )
