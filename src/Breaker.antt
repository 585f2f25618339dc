-- ===== src/Breaker.antt =====
-- internal/circuitbreaker/breaker.go: the circuit breaker. Each method holds the mutex for its whole
-- body, so it is one step on the record. A moment is the reading of the monotonic clock, a number;
-- `since now t` stands for `time.Since(t)` at the moment `now`, of package time.
pub mod Trace
pub mod Timing
mod Tests
use go_loadbalancer.Prelude.{ℕ, Bool, true, false, String, if◌then◌else◌}
use go_loadbalancer.Prelude.Int.{ℤ, pos, leb_ℤ, add64}

pub data State : Type 0 where
  closed open_ half_open : State

pub record Breaker : Type 0 where
  pub state : State
  pub failures : ℤ
  pub last_failure : ℕ
  pub failure_threshold : ℤ
  pub reset_timeout : ℤ

-- The zero `time.Time` is the moment 0.
unfoldable pub new : ℤ → ℤ → Breaker
new threshold timeout = record {
  state = closed;
  failures = pos 0;
  last_failure = 0;
  failure_threshold = threshold;
  reset_timeout = timeout;
}

-- The `switch` of `Allow`. `elapsed` is `time.Since(cb.lastFailure)`.
allow_in : State → ℤ → Breaker → Breaker × Bool
allow_in closed elapsed b = (b, true)
allow_in open_ elapsed b =
    if leb_ℤ b.reset_timeout elapsed then (record b { state = half_open }, true) else (b, false)
allow_in half_open elapsed b = (b, true)

unfoldable pub allow : (ℕ → ℕ → ℤ) → ℕ → Breaker → Breaker × Bool
unfolding allow_in
allow since now b = allow_in b.state (since now b.last_failure) b

abbrev reopened : State → State
reopened half_open = open_
reopened s = s

unfoldable pub record_failure : ℕ → Breaker → Breaker
unfolding add64
record_failure now b =
    let failures = add64 b.failures (pos 1) in
    record b {
      failures = failures;
      last_failure = now;
      state = if leb_ℤ b.failure_threshold failures then open_ else reopened b.state;
    }

unfoldable pub record_success : Breaker → Breaker
record_success b = record b { failures = pos 0; state = closed }

-- `State.String`; the type has no value outside the three constants, so `UNKNOWN` is left out.
unfoldable pub to_string : State → String
to_string closed = "CLOSED"
to_string open_ = "OPEN"
to_string half_open = "HALF-OPEN"
