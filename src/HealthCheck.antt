-- ===== src/HealthCheck.antt =====
-- internal/healthcheck/healthcheck.go: the goroutine that probes one backend. The log calls are left
-- out.
pub mod Flag
mod Tests
use go_loadbalancer.Prelude.{ℕ, Bool, true, false, List, [], ◌∷◌, if◌then◌else◌}
use go_loadbalancer.Prelude.Int.{ℤ, pos, ltb_ℤ}
use go_loadbalancer.Prelude.Map.{◌==◌, nat_key}
use go_loadbalancer.Backend.{Backend, set_healthy}

-- What a probe meets: the request cannot be built, `client.Do` fails, or an answer with a status.
pub data Probe : Type 0 where
  no_request transport_error : Probe
  answered : ℕ → Probe

unfoldable pub do_health_check : Probe → Backend → Backend
do_health_check no_request b = b
do_health_check transport_error b = (set_healthy false b).0
do_health_check (answered status) b = (set_healthy (status == 200) b).0

-- What the `select` of the loop takes.
pub data Round : Type 0 where
  done : Round
  tick : Probe → Round

unfoldable pub loop : List Round → Backend → Backend
loop [] b = b
loop (done ∷ rs) b = b
loop (tick p ∷ rs) b = loop rs (do_health_check p b)

-- Where the goroutine is: in its loop or past it, or it has panicked, which ends the process.
pub data Checked : Type 0 where
  goes panics : Backend → Checked

-- `HealthCheck`, as far as the rounds `rs` go. `time.NewTicker` panics for an interval that is not
-- positive.
unfoldable pub health_check : ℤ → Probe → List Round → Backend → Checked
unfolding loop
health_check interval first rs b =
    let probed = do_health_check first b in
    if ltb_ℤ (pos 0) interval then goes (loop rs probed) else panics probed
