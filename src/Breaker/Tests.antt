-- ===== src/Breaker/Tests.antt =====
-- The theorems on the circuit breaker at concrete histories.
use go_loadbalancer.Prelude.{ℕ, ◌-◌, ◌≡◌, refl, ◌↔◌, arith, List, [], ◌∷◌, map}
use go_loadbalancer.Prelude.Int.{ℤ, pos, ◌<ℤ◌}
use go_loadbalancer.Breaker.{closed, open_, Breaker, new}
use go_loadbalancer.Breaker.Trace.{Call, allows, fails, succeeds, run, consecutive, run-closed_iff}
use go_loadbalancer.Breaker.Timing.{answers, timed_out, answers-open}

abbrev since : ℕ → ℕ → ℤ
since now t = pos (now - t)

abbrev history : List Call
history = fails 3 ∷ succeeds ∷ fails 5 ∷ fails 7 ∷ allows 8 ∷ []

run-closed_iff_example :
    ((run since history (new (pos 2) (pos 10))).failures ≡ pos (consecutive 0 history))
    × (((run since history (new (pos 2) (pos 10))).state ≡ closed)
        ↔ (pos (consecutive 0 history) <ℤ pos 2))
run-closed_iff_example = run-closed_iff since (pos 2) (omega arith) (pos 10) history (omega arith)

abbrev tripped : Breaker
tripped = record {
  state = open_;
  failures = pos 2;
  last_failure = 7;
  failure_threshold = pos 2;
  reset_timeout = pos 10;
}

answers-open_example :
    answers since (8 ∷ 17 ∷ 18 ∷ []) tripped ≡ map (timed_out since tripped) (8 ∷ 17 ∷ 18 ∷ [])
answers-open_example =
    answers-open since (λ t now later h. omega arith) (8 ∷ 17 ∷ 18 ∷ []) tripped 8
      (omega arith, (omega arith, (omega arith, tt))) refl
