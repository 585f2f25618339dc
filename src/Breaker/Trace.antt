-- ===== src/Breaker/Trace.antt =====
-- What the calls of a circuit breaker do over any history (internal/circuitbreaker/breaker.go).
use go_loadbalancer.Prelude.{ℕ, suc, ◌+◌, ◌<◌, ◌^◌, ◌≡◌, ◌↔◌, arith, List, [], ◌∷◌}
use go_loadbalancer.Prelude.Int.{ℤ, pos, ◌<ℤ◌}
use go_loadbalancer.Breaker.{closed, Breaker, new, allow, record_failure, record_success}

-- The calls, with the moment at which they read the clock.
pub data Call : Type 0 where
  allows : ℕ → Call
  fails : ℕ → Call
  succeeds : Call

module _ (since : ℕ → ℕ → ℤ) where
  step : Call → Breaker → Breaker
  step (allows now) b = (allow since now b).0
  step (fails now) b = record_failure now b
  step succeeds b = record_success b

  unfoldable pub run : List Call → Breaker → Breaker
  unfolding step
  run [] b = b
  run (c ∷ cs) b = run cs (step c b)

-- Failures since the last success, or since the start with `n` of them.
abbrev pub consecutive : ℕ → List Call → ℕ
consecutive n [] = n
consecutive n (allows _ ∷ cs) = consecutive n cs
consecutive n (fails _ ∷ cs) = consecutive (suc n) cs
consecutive n (succeeds ∷ cs) = consecutive 0 cs

abbrev pub failures_of : List Call → ℕ
failures_of [] = 0
failures_of (allows _ ∷ cs) = failures_of cs
failures_of (fails _ ∷ cs) = suc (failures_of cs)
failures_of (succeeds ∷ cs) = failures_of cs

-- The breaker has seen `n` failures in a row and lets requests through freely below the threshold.
record Counts (threshold : ℤ) (n : ℕ) (b : Breaker) : Type 0 where
  failures_exact : b.failures ≡ pos n
  threshold_kept : b.failure_threshold ≡ threshold
  closed_below : b.state ≡ closed → pos n <ℤ threshold
  below_closed : pos n <ℤ threshold → b.state ≡ closed

allow-Counts :
    (since : ℕ → ℕ → ℤ) (now : ℕ) (t : ℤ) (n : ℕ) (b : Breaker)
    → Counts t n b
    → Counts t n (allow since now b).0
unfolding allow
allow-Counts since now t n b h = ground arith

record_failure-Counts :
    (now : ℕ) (t : ℤ) (n : ℕ) (b : Breaker)
    → suc n < 2 ^ 63
    → Counts t n b
    → Counts t (suc n) (record_failure now b)
unfolding record_failure
record_failure-Counts now t n b small h = ground arith

record_success-Counts :
    (t : ℤ) (n : ℕ) (b : Breaker) → pos 0 <ℤ t → Counts t n b → Counts t 0 (record_success b)
unfolding record_success
record_success-Counts t n b positive h = ground arith

module _ (since : ℕ → ℕ → ℤ) (t : ℤ) (positive : pos 0 <ℤ t) where
  run-Counts :
      (cs : List Call) (n : ℕ) (b : Breaker)
      → n + failures_of cs < 2 ^ 63
      → Counts t n b
      → Counts t (consecutive n cs) (run since cs b)
  unfolding run
  run-Counts [] n b small h = h
  run-Counts (allows now ∷ cs) n b small h =
      run-Counts cs n _ small (allow-Counts since now t n b h)
  run-Counts (fails now ∷ cs) n b small h =
      run-Counts cs (suc n) _ (omega arith) (record_failure-Counts now t n b (omega arith) h)
  run-Counts (succeeds ∷ cs) n b small h =
      run-Counts cs 0 _ (omega arith) (record_success-Counts t n b positive h)

  new-Counts : (timeout : ℤ) → Counts t 0 (new t timeout)
  unfolding new
  new-Counts timeout = ground arith

  -- From a new breaker with a positive threshold on, through any calls at any moments with fewer
  -- than 2^63 failures, the counter holds the number of failures since the last success, and the
  -- breaker is closed exactly while that number is below the threshold.
  pub run-closed_iff :
      (timeout : ℤ) (cs : List Call)
      → failures_of cs < 2 ^ 63
      → let b = run since cs (new t timeout) in
        (b.failures ≡ pos (consecutive 0 cs)) × ((b.state ≡ closed) ↔ (pos (consecutive 0 cs) <ℤ t))
  run-closed_iff timeout cs small =
      let c = run-Counts cs 0 (new t timeout) (omega arith) (new-Counts timeout) in
      (c.failures_exact, (c.closed_below, c.below_closed))
