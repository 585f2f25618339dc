-- ===== src/Program/Runs.antt =====
-- What `main` of cmd/main.go makes of a configuration that `Validate` accepts.
use go_loadbalancer.Prelude.{◌≡◌, ◌⊎◌, true, List, none}
use go_loadbalancer.Prelude.Int.{ℤ}
use go_loadbalancer.Backend.{Backend}
use go_loadbalancer.Backend
use go_loadbalancer.Config.{Config, Parsers}
use go_loadbalancer.Config.Accepted.{Accepted}
use go_loadbalancer.HealthCheck.{Probe, Round, goes, panics, health_check}
use go_loadbalancer.Program.{App, Outcome, exits, runs, bad_reset_timeout}
use go_loadbalancer.Program.Assembly.{Assembled}

-- The health checks of any backend go on, or panic, whatever its probes meet.
abbrev pub GoOn : ℤ → Type 0
GoOn t =
    (b : Backend) (first : Probe) (rounds : List Round)
    → (c : Backend) × (health_check t first rounds b ≡ goes c)

abbrev pub Panic : ℤ → Type 0
Panic t =
    (b : Backend) (first : Probe) (rounds : List Round)
    → (c : Backend) × (health_check t first rounds b ≡ panics c)

-- What `main` comes to: it exits for the reset timeout of an enabled breaker, or it runs as described.
abbrev pub Comes : Parsers → Config → Outcome → Type 0
Comes p c outcome =
    ((outcome ≡ exits bad_reset_timeout)
      × (c.circuit_breaker.enabled ≡ true)
      × (p.parse_duration c.circuit_breaker.reset_timeout ≡ none))
    ⊎ ((a : App) × (outcome ≡ runs a) × Assembled p c a)
