-- ===== src/Handler/State.antt =====
-- The state of internal/handler/handler.go, and what a request meets.
use go_loadbalancer.Prelude.{ℕ, Bool, List, Option, String}
use go_loadbalancer.Prelude.Int.{ℤ}
use go_loadbalancer.Prelude.Map.{Map, string_key}
use go_loadbalancer.Backend.{Store, Float64}
use go_loadbalancer.Registry.{Registry}
use go_loadbalancer.Strategy.{Strategy}
use go_loadbalancer.Collector.{Collector}
use go_loadbalancer.Handler.Writer.{WriterCall}

-- `balancer` is the strategy of the `LoadBalancer`; a pointer that may be nil is an option.
pub record LoadBalancerHandler : Type 0 where
  pub balancer : Strategy
  pub backends : List ℕ
  pub metrics_collector : Option Collector
  pub circuit_registry : Option Registry
  pub max_retries : ℤ

unfoldable pub new_load_balancer_handler :
    Strategy → List ℕ → Option Collector → Option Registry → ℤ → LoadBalancerHandler
new_load_balancer_handler strategy backends collector registry max_retries = record {
  balancer = strategy;
  backends = backends;
  metrics_collector = collector;
  circuit_registry = registry;
  max_retries = max_retries;
}

-- What the code calls and the repository does not hold: `time.Since`, the arithmetic of `float64`,
-- and the calls that `http.Error` makes of the response writer.
pub record Library : Type 1 where
  pub since : ℕ → ℕ → ℤ
  pub float64 : Float64
  pub http_error : String → ℕ → List WriterCall

-- What one attempt meets: the random draw, the readings of the clock, the calls that the reverse
-- proxy makes of the writer, the error it reports to its `ErrorHandler`, and how long it took.
pub record Outcome : Type 0 where
  pub draw : ℕ
  pub allow_at : ℕ
  pub received_at : ℕ
  pub selected_at : ℕ
  pub calls : List WriterCall
  pub error : Option String
  pub duration : ℤ
  pub finished_at : ℕ

-- The state of a call of `ServeHTTP`: what is shared, the addresses tried, what the client was sent,
-- its header X-Backend-Server, and the backends that the request was forwarded to, newest first.
pub record Exchange : Type 0 where
  pub handler : LoadBalancerHandler
  pub store : Store
  pub tried : Map String Bool
  pub client : List WriterCall
  pub backend_header : Option String
  pub forwarded : List ℕ
