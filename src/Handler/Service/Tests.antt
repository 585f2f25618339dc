-- ===== src/Handler/Service/Tests.antt =====
-- Two requests over two backends that interleave, with a health check and the collector between their
-- steps: the first has returned, and the second is being forwarded.
use go_loadbalancer.Prelude.{
  ◌+◌, ◌≡◌, refl, arith, List, [], ◌∷◌, Option, none, some, true, false, length, ap, get_elem?,
}
use go_loadbalancer.Prelude.Int.{pos}
use go_loadbalancer.Prelude.Slots.{sum_of}
use go_loadbalancer.Prelude.Map.{get, lookup, string_key}
use go_loadbalancer.Backend.{modify, set_healthy}
use go_loadbalancer.Breaker
use go_loadbalancer.Breaker.{allow}
use go_loadbalancer.Registry
use go_loadbalancer.Registry.{get_breaker}
use go_loadbalancer.Collector
use go_loadbalancer.Collector.{receive}
use go_loadbalancer.Strategy
use go_loadbalancer.Strategy.{takes_key}
use go_loadbalancer.Strategy.LeastConn
use go_loadbalancer.LoadBalancer.{pick}
use go_loadbalancer.Handler.{rounds, max_attempts, is_idempotent}
use go_loadbalancer.Handler.Goroutine.{advance}
use go_loadbalancer.Handler.Tests.{library, store, handler, outcomes}
use go_loadbalancer.Handler.Service.{
  Request, Service, arrived, Event, arrives, proceeds, probes, collects, step, start, Reach,
  at_start, after,
}
use go_loadbalancer.Handler.Service.Counts.{count}
use go_loadbalancer.Handler.Service.Flights.{forwarding}
use go_loadbalancer.Handler.Service.Connections.{connections_counted}
use go_loadbalancer.Handler.Service.Responses.{Answer}
use go_loadbalancer.Handler.Service.Answers.{client_answered}

abbrev left_in : Service → Option Service → Service
left_in s none = s
left_in s (some t) = t

abbrev play : List Event → Service → Service
play [] s = s
play (e ∷ es) s = play es (left_in s (step library e s))

left_in-Reach :
    (e : Event) (s : Service) (t : Option Service)
    → step library e s ≡ t
    → Reach library handler store s
    → Reach library handler store (left_in s t)
left_in-Reach e s none i r = r
left_in-Reach e s (some t) i r = after r e i

play-Reach :
    (es : List Event) (s : Service)
    → Reach library handler store s
    → Reach library handler store (play es s)
play-Reach [] s r = r
play-Reach (e ∷ es) s r =
    play-Reach es (left_in s (step library e s)) (left_in-Reach e s (step library e s) refl r)

-- Two requests, of which the first is being forwarded.
abbrev under_way : List Event
under_way =
    arrives "10.0.0.1" "POST" (λ i. outcomes 2)
    ∷ arrives "10.0.0.2" "GET" outcomes
    ∷ proceeds 0
    ∷ proceeds 1
    ∷ proceeds 0
    ∷ proceeds 0
    ∷ proceeds 0
    ∷ proceeds 0
    ∷ proceeds 0
    ∷ proceeds 0
    ∷ collects
    ∷ probes 1 true
    ∷ proceeds 0
    ∷ proceeds 0
    ∷ []

abbrev loaded : Service
loaded = play under_way (start handler store)

reserved-one : loaded.reserved ≡ 0 ∷ []
unfolding step advance max_attempts is_idempotent get takes_key pick Strategy.select_backend
    LeastConn.select_backend receive Collector.new allow get_breaker lookup Registry.new Breaker.new
reserved-one = refl

requests-two : length loaded.requests ≡ 2
unfolding step advance max_attempts is_idempotent get takes_key pick Strategy.select_backend
    LeastConn.select_backend receive Collector.new allow get_breaker lookup Registry.new Breaker.new
requests-two = refl

connections_counted_example :
    (loaded.store 0).active_connections
    ≡ pos (count 0 loaded.reserved + sum_of (forwarding 0) loaded.requests)
connections_counted_example =
    connections_counted library handler store loaded 0 refl
      (play-Reach under_way (start handler store) at_start)
      (omega (arith, ap (count 0) reserved-one, requests-two))

-- A request that comes when both backends are down.
abbrev all_down : List Event
all_down =
    arrives "10.0.0.1" "POST" (λ i. outcomes 2)
    ∷ probes 0 false
    ∷ probes 1 false
    ∷ proceeds 0
    ∷ proceeds 0
    ∷ proceeds 0
    ∷ proceeds 0
    ∷ []

abbrev refused_all : Service
refused_all = play all_down (start handler store)

abbrev of_request : Option Request → Request
of_request none = arrived "" "" outcomes handler
of_request (some r) = r

abbrev answered : Request
answered = of_request (get_elem? refused_all.requests 0)

client_answered_example :
    Answer library answered.outcomes (rounds answered.max_attempts) answered.client
unfolding step advance max_attempts is_idempotent get modify set_healthy
client_answered_example =
    client_answered library handler store refused_all 0 answered
      (play-Reach all_down (start handler store) at_start) refl refl
