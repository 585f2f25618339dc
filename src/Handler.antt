-- ===== src/Handler.antt =====
-- internal/handler/handler.go: serving one request, with retries on other backends. The model follows
-- one goroutine, and Handler/Goroutine and Handler/Service follow many; the log calls are left out, and
-- `lastErr` with them, since only they read it.
pub mod Writer
pub mod State
pub mod Select
pub mod Effects
pub mod Client
pub mod Kept
pub mod Turn
pub mod Routing
pub mod Connections
pub mod Emitted
pub mod ClientIp
pub mod Events
pub mod Breakers
pub mod Goroutine
pub mod Service
mod Tests
use go_loadbalancer.Prelude.{
  ℕ, zero, suc, Bool, true, false, not, ◌&&◌, ◌||◌, List, [], ◌∷◌, ◌++◌, Option, none, some, String,
  if◌then◌else◌,
}
use go_loadbalancer.Prelude.Int.{ℤ, pos, negsuc, ltb_ℤ, add64}
use go_loadbalancer.Prelude.Map.{Map, get, insert, ◌==◌, string_key}
use go_loadbalancer.Backend.{
  Backend, Store, Float64, ProxyError, with_proxy_error_capture, error_handler, modify,
  increment_conn, decrement_conn,
}
use go_loadbalancer.Backend
use go_loadbalancer.Breaker.{Breaker, allow, record_failure, record_success}
use go_loadbalancer.Registry.{Registry, get_breaker, write}
use go_loadbalancer.Strategy.{Strategy, takes_key}
use go_loadbalancer.LoadBalancer.{
  Error, Result, ok, err, Reply, get_and_reserve_server, get_and_reserve_server_with_key,
}
use go_loadbalancer.Collector.{
  MetricEvent, Collector, request_received, backend_selected, response_completed, try_send,
}
use Writer.{WriterCall, RetryableWriter, wrap_writer, write_all}
use State.{LoadBalancerHandler, new_load_balancer_handler, Library, Outcome, Exchange}
use Select.{
  SelectError, server_closed, balancer_error, Selected, chosen, failed, Selection, from_result,
  from_reply, available, select_from, select_backend,
}
use Effects.{emit_event, on_breaker, allowed}

unfoldable pub is_idempotent : String → Bool
is_idempotent method =
    method == "GET"
    || method == "HEAD"
    || method == "OPTIONS"
    || method == "TRACE"
    || method == "PUT"
    || method == "DELETE"

-- How an attempt ends: the handler returns, tries again, or leaves the loop.
pub data Verdict : Type 0 where
  returns retries breaks : Verdict

abbrev pub event : Outcome → String → MetricEvent
event o url = record {
  type = request_received;
  timestamp = o.received_at;
  backend = url;
  duration = pos 0;
  status_code = 0;
  healthy = false;
}

-- The error in the cell of `WithProxyErrorCapture` after the proxy ran.
abbrev pub captured : Option String → Option String
captured none = with_proxy_error_capture.err
captured (some e) = elim (error_handler (some with_proxy_error_capture) e) [
  | none ↦ none
  | some cell ↦ cell.err
]

-- After the proxy returned, with the captured error.
unfoldable pub finish :
    Library → Outcome → ℕ → String → RetryableWriter → Option String → Exchange → Exchange × Verdict
finish lib o b url w none x = (
  record x {
    handler =
        emit_event
          (record (event o url) {
            type = response_completed;
            timestamp = o.finished_at;
            duration = o.duration;
            status_code = w.status_code;
          })
          (on_breaker url record_success x.handler);
    store = modify b (Backend.record_response lib.float64 o.duration) x.store;
  },
  returns,
)
finish lib o b url w (some e) x = (
  record x { handler = on_breaker url (record_failure o.finished_at) x.handler },
  if w.header_written then returns else retries,
)

unfoldable pub forward : Library → Outcome → ℕ → String → Exchange → Exchange × Verdict
unfolding wrap_writer write_all
forward lib o b url x =
    let w = write_all o.calls (wrap_writer x.client) in
    finish lib o b url w (captured o.error) (record x {
      handler =
          emit_event (record (event o url) { type = backend_selected; timestamp = o.selected_at })
            (emit_event (event o url) x.handler);
      store = modify b decrement_conn (modify b increment_conn x.store);
      client = w.client;
      backend_header = some url;
      forwarded = b ∷ x.forwarded;
    })

-- The part after the circuit breaker was asked.
unfoldable pub proceed :
    Library → Outcome → ℕ → String → Exchange → LoadBalancerHandler × Bool → Exchange × Verdict
proceed lib o b url x (h, false) = (record x { handler = h }, retries)
proceed lib o b url x (h, true) = forward lib o b url (record x { handler = h })

-- The part after `selectBackend`.
unfoldable pub selected : Library → Outcome → Exchange → Selected → Exchange × Verdict
selected lib o x (failed e) = (x, breaks)
selected lib o x (chosen b) =
    let url = (x.store b).url in
    proceed lib o b url (record x { tried = insert url true x.tried })
      (allowed lib o.allow_at url x.handler)

-- The body of the loop.
unfoldable pub attempt : Library → String → Outcome → Exchange → Exchange × Verdict
attempt lib client_ip o x =
    let s = select_backend o.draw client_ip x in
    selected lib o
      (record x { handler = record x.handler { balancer = s.strategy }; store = s.store })
      s.selected

unfoldable pub max_attempts : String → ℤ → ℤ
unfolding add64
max_attempts method max_retries =
    if is_idempotent method && ltb_ℤ (pos 0) max_retries then add64 max_retries (pos 1) else pos 1

abbrev pub rounds : ℤ → ℕ
rounds (pos n) = n
rounds (negsuc n) = 0

unfoldable pub unavailable : Library → Exchange → Exchange
unavailable lib x = record x { client = x.client ++ lib.http_error "Service unavailable" 503 }

-- The loop with `k` attempts left; attempt `n` meets `outcomes n`.
unfoldable pub attempts : Library → String → (ℕ → Outcome) → ℕ → ℕ → Exchange → Exchange
attempts lib client_ip outcomes zero n x = unavailable lib x
attempts lib client_ip outcomes (suc k) n x =
    let (y, verdict) = attempt lib client_ip (outcomes n) x in
    elim verdict [
      | returns ↦ y
      | retries ↦ attempts lib client_ip outcomes k (suc n) y
      | breaks ↦ unavailable lib y
    ]

abbrev pub begin : LoadBalancerHandler → Store → Exchange
begin h store = record {
  handler = h;
  store = store;
  tried = [];
  client = [];
  backend_header = none;
  forwarded = [];
}

unfoldable pub serve_http :
    Library → String → String → (ℕ → Outcome) → LoadBalancerHandler → Store → Exchange
serve_http lib client_ip method outcomes h store =
    attempts lib client_ip outcomes (rounds (max_attempts method h.max_retries)) 1 (begin h store)
