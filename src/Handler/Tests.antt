-- ===== src/Handler/Tests.antt =====
-- The theorems on the handler over two backends, of which the first fails without an answer.
use go_loadbalancer.Prelude.{
  ℕ, ◌-◌, ◌≤◌, ◌≡◌, refl, ◌⊎◌, arith, List, [], ◌∷◌, none, some, true, false, if◌then◌else◌, length,
  In, All, Distinct, map,
}
use go_loadbalancer.Prelude.Int.{ℤ, pos, ◌+ℤ◌, ◌*ℤ◌}
use go_loadbalancer.Prelude.Map.{◌==◌, nat_key, string_key, get}
use go_loadbalancer.Backend.{Store}
use go_loadbalancer.Registry
use go_loadbalancer.Collector
use go_loadbalancer.Strategy.{least_conn, takes_key}
use go_loadbalancer.Strategy
use go_loadbalancer.Strategy.LeastConn
use go_loadbalancer.LoadBalancer.{get_and_reserve_server, filter_healthy}
use go_loadbalancer.LoadBalancer.Reserve.{Healthy}
use go_loadbalancer.Handler.Writer.{header, body}
use go_loadbalancer.Handler.State.{Library, LoadBalancerHandler, Outcome}
use go_loadbalancer.Handler.Select.{available, select_from, select_backend}
use go_loadbalancer.Handler.{attempt, begin, serve_http, is_idempotent, max_attempts, rounds}
use go_loadbalancer.Handler.Client.{serve_http-client}
use go_loadbalancer.Handler.Routing.{serve_http-forwarded}
use go_loadbalancer.Handler.Breakers.{Asked, attempt-breakers}
use go_loadbalancer.Handler.Events.{serve_http-events}
use go_loadbalancer.Handler.Emitted.{tally, is_request, is_selection, is_response, is_health}
use go_loadbalancer.Handler.ClientIp.{extract_client_ip, extract_client_ip-first}
use go_loadbalancer.Registry.Laws.{new-IsValid}
use go_loadbalancer.Collector.{MetricEvent}
use go_loadbalancer.Go.Text.{append, contains, trim_space}
use go_loadbalancer.Go.Net.{join_host_port}

abbrev pub library : Library
library = record {
  since = λ now t. pos (now - t);
  float64 = record {
    F = ℤ;
    of_int = λ a. a;
    to_int = λ a. a;
    add = ◌+ℤ◌;
    mul = ◌*ℤ◌;
    constant = pos;
  };
  http_error = λ text code. header code ∷ body text ∷ [];
}

abbrev pub store : Store
store p = record {
  url = if p == 0 then "http://a:1" else "http://b:1";
  is_healthy = true;
  active_connections = pos 0;
  weight = pos 1;
  ewma_response_time = pos 0;
  has_ewma = false;
}

abbrev pub handler : LoadBalancerHandler
handler = record {
  balancer = least_conn;
  backends = 0 ∷ 1 ∷ [];
  metrics_collector = some (Collector.new 10 0);
  circuit_registry = some (Registry.new (pos 3) (pos 1000));
  max_retries = pos 2;
}

abbrev refused : Outcome
refused = record {
  draw = 0;
  allow_at = 1;
  received_at = 2;
  selected_at = 3;
  calls = [];
  error = some "connection refused";
  duration = pos 4;
  finished_at = 7;
}

abbrev pub outcomes : ℕ → Outcome
outcomes i =
    if i == 1
    then refused
    else record refused { calls = header 200 ∷ body "hello" ∷ []; error = none }

serve_http-client_example :
    ((i : ℕ) × (1 ≤ i)
      × (i ≤ rounds (max_attempts "GET" (pos 2)))
      × ((serve_http library "10.0.0.1" "GET" outcomes handler store).client ≡ (outcomes i).calls))
    ⊎ ((serve_http library "10.0.0.1" "GET" outcomes handler store).client
        ≡ header 503 ∷ body "Service unavailable" ∷ [])
serve_http-client_example = serve_http-client library "10.0.0.1" "GET" outcomes handler store

serve_http-forwarded_example :
    let forwarded = (serve_http library "10.0.0.1" "GET" outcomes handler store).forwarded in
    All (λ b. In b handler.backends × Healthy store b) forwarded
    × Distinct (map (λ b. (store b).url) forwarded)
    × (length forwarded ≤ rounds (max_attempts "GET" (pos 2)))
unfolding takes_key
serve_http-forwarded_example =
    serve_http-forwarded library "10.0.0.1" "GET" outcomes handler store refl

attempt-breakers_example :
    Asked library
      (outcomes 1)
      0
      "http://a:1"
      (Registry.new (pos 3) (pos 1000))
      []
      (attempt library "10.0.0.1" (outcomes 1) (begin handler store)).0
unfolding select_backend select_from available get_and_reserve_server filter_healthy takes_key get
    Strategy.select_backend LeastConn.select_backend
attempt-breakers_example =
    attempt-breakers library "10.0.0.1" (outcomes 1) (begin handler store)
      (Registry.new (pos 3) (pos 1000)) 0 refl (new-IsValid (pos 3) (pos 1000)) refl

serve_http-events_example :
    let y = serve_http library "10.0.0.1" "GET" outcomes handler store in
    (es : List MetricEvent) × (y.handler.metrics_collector
      ≡ some (record (Collector.new 10 0) { event_ch = es }))
    × (tally is_request es ≡ length y.forwarded)
    × (tally is_selection es ≡ length y.forwarded)
    × (tally is_response es ≤ 1)
    × (tally is_health es ≡ 0)
unfolding max_attempts is_idempotent Collector.new
serve_http-events_example =
    serve_http-events library "10.0.0.1" "GET" outcomes handler store (Collector.new 10 0) refl
      (omega arith)

extract_client_ip-first_example :
    (extract_client_ip "" (join_host_port "::1" "80") ≡ "::1")
    × (extract_client_ip " 9.9.9.9 " "" ≡ trim_space " 9.9.9.9 ")
    × (extract_client_ip (append " 9.9.9.9 " (append "," "10.0.0.1")) "" ≡ trim_space " 9.9.9.9 ")
unfolding contains
extract_client_ip-first_example =
    extract_client_ip-first "::1" "80" "" " " "9.9.9.9 " "10.0.0.1" refl refl refl refl refl refl
