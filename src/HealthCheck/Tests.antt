-- ===== src/HealthCheck/Tests.antt =====
-- The theorem on the health checks at concrete probes.
use go_loadbalancer.Prelude.{◌≡◌, refl, ◌⊎◌, List, [], ◌∷◌, ◌++◌}
use go_loadbalancer.Prelude.Int.{pos, ◌≤ℤ◌, ◌<ℤ◌}
use go_loadbalancer.Backend.{Backend, new, set_healthy}
use go_loadbalancer.HealthCheck.{
  no_request, transport_error, answered, Round, done, tick, goes, panics, do_health_check,
  health_check,
}
use go_loadbalancer.HealthCheck.Flag.{verdicts, verdicts_of, last_or, health_check-last_verdict}

abbrev backend : Backend
backend = new "http://a:1" (pos 1)

abbrev rounds : List Round
rounds = tick (answered 200) ∷ tick no_request ∷ done ∷ tick (answered 500) ∷ []

health_check-last_verdict_example :
    ((pos 0 <ℤ pos 2)
      × (health_check (pos 2) transport_error rounds backend
          ≡ goes (record backend {
            is_healthy =
                last_or backend.is_healthy (verdicts transport_error ++ verdicts_of rounds);
          })))
    ⊎ ((pos 2 ≤ℤ pos 0)
        × (health_check (pos 2) transport_error rounds backend
            ≡ panics (record backend {
              is_healthy = last_or backend.is_healthy (verdicts transport_error);
            })))
health_check-last_verdict_example = health_check-last_verdict (pos 2) transport_error rounds backend

no_interval : health_check (pos 0) transport_error rounds backend ≡ panics backend
unfolding health_check do_health_check set_healthy new
no_interval = refl
