-- ===== src/Startup.antt =====
-- `initializeBackends` of cmd/main.go: the backends of the configuration. The goroutine that probes
-- each of them is in HealthCheck.
pub mod Backends
mod Tests
use go_loadbalancer.Prelude.{List, [], ◌∷◌, Option, none, some, String}
use go_loadbalancer.Prelude.Int.{ℤ}
use go_loadbalancer.Config.{BackendConfig}
use go_loadbalancer.Backend.{Backend}
use go_loadbalancer.Backend

-- The address that `url.Parse` of package net/url gives, printed again, or none for its error.
module _ (parse : String → Option String) where
  unfoldable pub collect : List BackendConfig → List Backend
  collect [] = []
  collect (c ∷ cs) = elim (parse c.url) [
    | none ↦ collect cs
    | some address ↦ Backend.new address c.weight ∷ collect cs
  ]

-- The error of `time.ParseDuration`, and `os.ErrInvalid`.
pub data StartError : Type 0 where
  bad_interval no_backends : StartError

-- The backends that were started, each with the goroutine of its health checks at the interval.
pub data Started : Type 0 where
  failed : StartError → Started
  started : ℤ → List Backend → Started

abbrev not_empty : ℤ → List Backend → Started
not_empty interval [] = failed no_backends
not_empty interval (b ∷ bs) = started interval (b ∷ bs)

-- `interval` is what `time.ParseDuration` gives of the interval of the health checks.
unfoldable pub initialize_backends :
    (String → Option String) → Option ℤ → List BackendConfig → Started
unfolding collect
initialize_backends parse none configs = failed bad_interval
initialize_backends parse (some interval) configs = not_empty interval (collect parse configs)
