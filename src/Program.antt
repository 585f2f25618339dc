-- ===== src/Program.antt =====
-- `main` of cmd/main.go, with `setupRouter` of cmd/router.go: how the parts are put together. What
-- `viper` reads is the argument `read`, none for an error. The profiling server and the log
-- are left out, and a signal is one of two ways to end; the goroutines of the health checks and of
-- the metrics are in HealthCheck and Collector.
pub mod Pointers
mod Assembly
pub mod Runs
mod Tests
use go_loadbalancer.Prelude.{
  ℕ, suc, Bool, true, false, List, [], ◌∷◌, Option, none, some, String, map, length, get_or,
  if◌then◌else◌,
}
use mathlib.Core.Option
use go_loadbalancer.Prelude.Int.{ℤ, pos}
use go_loadbalancer.Config.{Config, CircuitBreakerConfig, Parsers, validate}
use go_loadbalancer.Config.Rules.{Ozzo}
use go_loadbalancer.Go.Net.{Url}
use go_loadbalancer.Backend.{Backend, Store}
use go_loadbalancer.Backend
use go_loadbalancer.Registry.{Registry}
use go_loadbalancer.Registry
use go_loadbalancer.Collector
use go_loadbalancer.Strategy.{create_strategy}
use go_loadbalancer.Handler.State.{LoadBalancerHandler, new_load_balancer_handler}
use go_loadbalancer.HttpServer.{Server, Created, created, refused, Ended}
use go_loadbalancer.HttpServer
use go_loadbalancer.Startup.{Started, failed, started, initialize_backends}

-- The handlers that the router knows: the balancer, and the metrics with the strategy's name.
pub data Endpoint : Type 0 where
  balancer : Endpoint
  metrics : String → Endpoint

-- The patterns of the router, with their handlers.
unfoldable pub setup_router : String → List (String × Endpoint)
setup_router strategy = ("/", balancer) ∷ ("/metrics", metrics strategy) ∷ []

-- The program as it runs, with the interval of the health checks, one goroutine for each backend.
pub record App : Type 0 where
  pub handler : LoadBalancerHandler
  pub store : Store
  pub server : Server (List (String × Endpoint))
  pub check_interval : ℤ

pub data Failure : Type 0 where
  bad_config bad_backends bad_reset_timeout bad_address : Failure

-- `exits` is `os.Exit(1)`.
pub data Outcome : Type 0 where
  exits : Failure → Outcome
  runs : App → Outcome

-- `config.Load`, after reading.
unfoldable pub load : (o : Ozzo) → Parsers → Option Config → Option Config
load o p none = none
load o p (some c) = elim (validate o p c) [ none ↦ some c | some e ↦ none ]

-- `none` for an invalid timeout, `some none` for a breaker that is not enabled.
unfoldable pub registry_of : Parsers → CircuitBreakerConfig → Option (Option Registry)
registry_of p cb =
    if cb.enabled
    then Option.map (λ t. some (Registry.new cb.failure_threshold t))
        (p.parse_duration cb.reset_timeout)
    else some none

-- The backends in memory: pointer `i` is the backend at position `i`.
abbrev pub store_of : List Backend → Store
store_of bs p = get_or bs p (Backend.new "" (pos 0))

abbrev pub pointers_from : ℕ → List Backend → List ℕ
pointers_from i [] = []
pointers_from i (b ∷ bs) = i ∷ pointers_from (suc i) bs

serve : ℤ → LoadBalancerHandler → Store → Created (List (String × Endpoint)) → Outcome
serve interval handler store (refused e) = exits bad_address
serve interval handler store (created server) =
    runs (record { handler = handler; store = store; server = server; check_interval = interval })

-- After the backends and the breakers; `now` is the start of the metrics.
pub assemble : (String → Bool) → ℕ → Config → ℤ → List Backend → Option (Option Registry) → Outcome
unfolding serve
assemble is_host now c interval bs none = exits bad_reset_timeout
assemble is_host now c interval bs (some registry) =
    serve interval
      (new_load_balancer_handler (create_strategy c.strategy.type c.strategy.virtual_nodes)
        (pointers_from 0 bs) (some (Collector.new 1000 now)) registry c.retry.max_retries)
      (store_of bs) (HttpServer.new is_host c.server.address (setup_router c.strategy.type))

with_backends : Parsers → (String → Bool) → ℕ → Config → Started → Outcome
unfolding assemble
with_backends p is_host now c (failed e) = exits bad_backends
with_backends p is_host now c (started interval bs) =
    assemble is_host now c interval bs (registry_of p c.circuit_breaker)

-- The text of a parsed address.
abbrev pub address_of : Parsers → String → Option String
address_of p url = Option.map (λ u. u.text) (p.parse_url url)

configured : Parsers → (String → Bool) → ℕ → Option Config → Outcome
unfolding with_backends
configured p is_host now none = exits bad_config
configured p is_host now (some c) =
    with_backends p is_host now c
      (initialize_backends (address_of p) (p.parse_duration c.health_check.interval) c.backends)

unfoldable pub main : (o : Ozzo) → Parsers → (String → Bool) → ℕ → Option Config → Outcome
unfolding configured load
main o p is_host now read = configured p is_host now (load o p read)

-- What `main` waits for: the context is done, after which `Shutdown` may fail, or `Start` has returned.
pub data Ending : Type 0 where
  interrupted : Option String → Ending
  served : Ended → Ending

-- The status with which the program ends.
unfoldable pub exit_status : Outcome → Ending → ℕ
unfolding HttpServer.start
exit_status (exits f) e = 1
exit_status (runs app) (interrupted e) = 0
exit_status (runs app) (served e) = elim (HttpServer.start e) [ none ↦ 0 | some text ↦ 1 ]
