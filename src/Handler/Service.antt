-- ===== src/Handler/Service.antt =====
-- internal/handler/handler.go under load: any number of goroutines of `ServeHTTP` over one handler, with
-- the health checks and the collector's goroutine, interleaved in any order.
pub mod Kept
pub mod Counts
pub mod Flights
pub mod Connections
pub mod Responses
pub mod Answers
mod Tests
use go_loadbalancer.Prelude.{
  ℕ, suc, ◌≡◌, Bool, List, [], ◌∷◌, ◌++◌, Option, none, some, String, get_elem?,
}
use go_loadbalancer.Prelude.Int.{ℤ}
use go_loadbalancer.Prelude.Map.{Map}
use go_loadbalancer.Prelude.Slots.{set_elem}
use go_loadbalancer.Backend.{Store, modify, set_healthy}
use go_loadbalancer.Collector.{Collector, receive}
use go_loadbalancer.Handler.Writer.{WriterCall}
use go_loadbalancer.Handler.State.{LoadBalancerHandler, Library, Outcome, Exchange}
use go_loadbalancer.Handler.{max_attempts}
use go_loadbalancer.Handler.Goroutine.{Phase, asking, Task, first, advance}

-- A request with the local variables of its goroutine, and what its attempts will meet.
pub record Request : Type 0 where
  pub client_ip : String
  pub outcomes : ℕ → Outcome
  pub max_attempts : ℤ
  pub task : Task
  pub tried : Map String Bool
  pub client : List WriterCall
  pub backend_header : Option String
  pub forwarded : List ℕ

-- `reserved` lists the reservations made so far, newest first.
pub record Service : Type 0 where
  pub handler : LoadBalancerHandler
  pub store : Store
  pub requests : List Request
  pub reserved : List ℕ

-- What the goroutine of a request sees.
abbrev pub exchange_of : Service → Request → Exchange
exchange_of s r = record {
  handler = s.handler;
  store = s.store;
  tried = r.tried;
  client = r.client;
  backend_header = r.backend_header;
  forwarded = r.forwarded;
}

-- A goroutine asks the breaker right after its reservation.
abbrev pub reservation : Phase → List ℕ
reservation (asking b) = b ∷ []
reservation _ = []

abbrev pub request_in : Request → Exchange → Task → Request
request_in r x t = record r {
  task = t;
  tried = x.tried;
  client = x.client;
  backend_header = x.backend_header;
  forwarded = x.forwarded;
}

abbrev pub put_back : Service → ℕ → Request → Option (Exchange × Task) → Option Service
put_back s k r none = none
put_back s k r (some (x, t)) = some (record {
  handler = x.handler;
  store = x.store;
  requests = set_elem s.requests k (request_in r x t);
  reserved = reservation t.phase ++ s.reserved;
})

abbrev pub resume : Library → Service → ℕ → Option Request → Option Service
resume lib s k none = none
resume lib s k (some r) =
    put_back s k r (advance lib r.client_ip r.outcomes (exchange_of s r) r.task)

abbrev pub arrived : String → String → (ℕ → Outcome) → LoadBalancerHandler → Request
arrived ip method outcomes h = record {
  client_ip = ip;
  outcomes = outcomes;
  max_attempts = max_attempts method h.max_retries;
  task = first method h;
  tried = [];
  client = [];
  backend_header = none;
  forwarded = [];
}

abbrev pub with_collector : Service → Option Collector → Option Service
with_collector s none = none
with_collector s (some c) =
    some (record s { handler = record s.handler { metrics_collector = some c } })

abbrev pub collected : Service → Option Collector → Option Service
collected s none = none
collected s (some c) = with_collector s (receive c)

-- A request comes in, the goroutine of request number `k` makes a step, a probe sets the health of a
-- backend, or the collector takes an event.
pub data Event : Type 0 where
  arrives : String → String → (ℕ → Outcome) → Event
  proceeds : ℕ → Event
  probes : ℕ → Bool → Event
  collects : Event

unfoldable pub step : Library → Event → Service → Option Service
step lib (arrives ip method outcomes) s =
    some (record s { requests = s.requests ++ (arrived ip method outcomes s.handler ∷ []) })
step lib (proceeds k) s = resume lib s k (get_elem? s.requests k)
step lib (probes b healthy) s =
    some (record s { store = modify b (λ c. (set_healthy healthy c).0) s.store })
step lib collects s = collected s s.handler.metrics_collector

abbrev pub start : LoadBalancerHandler → Store → Service
start h store = record { handler = h; store = store; requests = []; reserved = [] }

-- What some interleaving reaches.
pub data Reach (lib : Library) (h : LoadBalancerHandler) (store : Store) : Service → Type 0 where
  at_start : Reach lib h store (start h store)
  after :
      {s t : Service}
      → Reach lib h store s
      → (e : Event) → step lib e s ≡ some t
      → Reach lib h store t
