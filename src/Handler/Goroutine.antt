-- ===== src/Handler/Goroutine.antt =====
-- `ServeHTTP` of internal/handler/handler.go as one goroutine among others: each step is one critical
-- section on what they share, with the local work that follows it, or one read of a health flag.
-- The functions of the sequential model are reused where a step is exactly one of them.
-- Where the proxy of net/http panics, to abort an answer that broke off, nothing after it runs: such a
-- goroutine stays before its step `releasing`, and its connection is never released.
pub mod Alone
pub mod Serves
pub mod Shorter
pub mod Ends
mod Tests
use go_loadbalancer.Prelude.{
  ℕ, zero, suc, Bool, true, false, not, ◌&&◌, List, [], ◌∷◌, ◌++◌, Option, none, some, String,
  if◌then◌else◌,
}
use go_loadbalancer.Prelude.Map.{get, insert, string_key}
use go_loadbalancer.Backend.{Backend, Store, modify, increment_conn, decrement_conn}
use go_loadbalancer.Backend
use go_loadbalancer.Breaker.{allow, record_failure, record_success}
use go_loadbalancer.Registry.{Registry, get_breaker, write}
use go_loadbalancer.Strategy.{Strategy, takes_key}
use go_loadbalancer.LoadBalancer.{Result, ok, err, Reply, pick, get_and_reserve_server_with_key}
use go_loadbalancer.Collector.{backend_selected, response_completed}
use go_loadbalancer.Handler.Writer.{RetryableWriter, wrap_writer, write_all}
use go_loadbalancer.Handler.State.{LoadBalancerHandler, Library, Outcome, Exchange}
use go_loadbalancer.Handler.Effects.{emit_event}
use go_loadbalancer.Handler.{event, captured, unavailable, rounds, max_attempts}

-- Where a request is, by what it does next. `b` is the backend, `url` its address, `p` the pointer to
-- its breaker, `w` the writer after the proxy returned, and `e` the captured error.
pub data Phase : Type 0 where
  -- the loop of `selectBackend`: the backends to look at, those available
  looking : List ℕ → List ℕ → Phase
  -- the lock of the balancer
  choosing : List ℕ → Phase
  -- `IncrementConn` of the balancer, after the lock is released
  reserving : ℕ → Phase
  -- `GetBreaker`, then `Allow`
  asking : ℕ → Phase
  deciding : ℕ → String → ℕ → Phase
  -- the two events, the count of connections, the proxy
  announcing : ℕ → String → Phase
  naming : ℕ → String → Phase
  counting : ℕ → String → Phase
  proxying : ℕ → String → Phase
  -- `DecrementConn`; `GetBreaker`, then `RecordSuccess` or `RecordFailure`
  releasing : ℕ → String → RetryableWriter → Option String → Phase
  fetching : ℕ → String → RetryableWriter → Option String → Phase
  noting : ℕ → String → ℕ → RetryableWriter → Option String → Phase
  -- the event of the response, `RecordResponse`
  completing : ℕ → String → RetryableWriter → Phase
  storing : ℕ → Phase
  -- after the loop
  failing : Phase
  returned : Phase

-- `left` attempts follow this one, which is number `number`.
pub record Task : Type 0 where
  pub phase : Phase
  pub left : ℕ
  pub number : ℕ

-- The head of the loop, with `k` attempts left.
abbrev pub next_attempt : List ℕ → ℕ → ℕ → Task
next_attempt backends zero n = record { phase = failing; left = 0; number = n }
next_attempt backends (suc k) n = record { phase = looking backends []; left = k; number = n }

-- Where `ServeHTTP` begins.
abbrev pub first : String → LoadBalancerHandler → Task
first method h = next_attempt h.backends (rounds (max_attempts method h.max_retries)) 1

abbrev pub again : Exchange → Task → Task
again x t = next_attempt x.handler.backends t.left (suc t.number)

abbrev pub to : Phase → Task → Task
to p t = record t { phase = p }

-- After the error of the proxy was looked at.
abbrev pub settled : ℕ → String → RetryableWriter → Option String → Exchange → Task → Task
settled b url w none x t = to (completing b url w) t
settled b url w (some e) x t = if w.header_written then to returned t else again x t

abbrev pub after_pick : Exchange → Task → Strategy × Option ℕ → Exchange × Task
after_pick x t (strategy, none) =
    (record x { handler = record x.handler { balancer = strategy } }, to failing t)
after_pick x t (strategy, some b) =
    (record x { handler = record x.handler { balancer = strategy } }, to (reserving b) t)

abbrev pub reserved_or_failed : Result → Phase
reserved_or_failed (ok b) = asking b
reserved_or_failed (err e) = failing

-- The critical section of `GetAndReserveServerWithKey`, which reserves under the lock.
abbrev pub after_keyed : Exchange → Task → Reply → Exchange × Task
after_keyed x t r = (
  record x { handler = record x.handler { balancer = r.strategy }; store = r.store },
  to (reserved_or_failed r.result) t,
)

abbrev pub with_registry : Exchange → Registry → Exchange
with_registry x r = record x { handler = record x.handler { circuit_registry = some r } }

abbrev pub after_asking : ℕ → String → Exchange → Task → Option Registry → Exchange × Task
after_asking b url x t none = (x, to (announcing b url) t)
after_asking b url x t (some r) =
    let (found, p) = get_breaker url r in (with_registry x found, to (deciding b url p) t)

abbrev pub after_deciding :
    Library → ℕ → ℕ → String → ℕ → Exchange → Task → Option Registry → Exchange × Task
after_deciding lib now b url p x t none = (x, to (announcing b url) t)
after_deciding lib now b url p x t (some r) =
    let (c, admits) = allow lib.since now (r.heap p) in
    (with_registry x (write p c r), if admits then to (announcing b url) t else again x t)

abbrev pub after_fetching :
    ℕ
    → String
    → RetryableWriter
    → Option String
    → Exchange
    → Task
    → Option Registry
    → Exchange × Task
after_fetching b url w e x t none = (x, settled b url w e x t)
after_fetching b url w e x t (some r) =
    let (found, p) = get_breaker url r in (with_registry x found, to (noting b url p w e) t)

abbrev pub after_noting :
    ℕ
    → ℕ
    → String
    → ℕ
    → RetryableWriter
    → Option String
    → Exchange
    → Task
    → Option Registry
    → Exchange × Task
after_noting now b url p w e x t none = (x, settled b url w e x t)
after_noting now b url p w none x t (some r) =
    (with_registry x (write p (record_success (r.heap p)) r), settled b url w none x t)
after_noting now b url p w (some e) x t (some r) =
    (with_registry x (write p (record_failure now (r.heap p)) r), settled b url w (some e) x t)

abbrev pub emitting : Exchange → LoadBalancerHandler → Exchange
emitting x h = record x { handler = h }

-- One step in the phase `p`, in the attempt that meets `o`; none once the handler has returned.
unfoldable pub advance_in :
    Library → String → Outcome → Phase → Exchange → Task → Option (Exchange × Task)
unfolding wrap_writer write_all
advance_in lib ip o (looking [] []) x t = some (x, to failing t)
advance_in lib ip o (looking [] (c ∷ cs)) x t = some (x, to (choosing (c ∷ cs)) t)
advance_in lib ip o (looking (b ∷ bs) found) x t = some (
  x,
  if not (get false (x.store b).url x.tried) && (x.store b).is_healthy
      then to (looking bs (found ++ (b ∷ []))) t
      else to (looking bs found) t,
)
advance_in lib ip o (choosing found) x t = some (
    if takes_key x.handler.balancer
    then after_keyed x t
        (get_and_reserve_server_with_key o.draw found ip x.handler.balancer x.store)
    else after_pick x t (pick o.draw found x.handler.balancer x.store))
advance_in lib ip o (reserving b) x t =
    some (record x { store = modify b increment_conn x.store }, to (asking b) t)
advance_in lib ip o (asking b) x t =
    let url = (x.store b).url in
    some (
      after_asking b url (record x { tried = insert url true x.tried }) t
        x.handler.circuit_registry)
advance_in lib ip o (deciding b url p) x t =
    some (after_deciding lib o.allow_at b url p x t x.handler.circuit_registry)
advance_in lib ip o (announcing b url) x t =
    some (emitting x (emit_event (event o url) x.handler), to (naming b url) t)
advance_in lib ip o (naming b url) x t = some (
  emitting x (
      emit_event (record (event o url) { type = backend_selected; timestamp = o.selected_at })
        x.handler),
  to (counting b url) t,
)
advance_in lib ip o (counting b url) x t = some (
  record x {
    store = modify b increment_conn x.store;
    backend_header = some url;
    forwarded = b ∷ x.forwarded;
  },
  to (proxying b url) t,
)
advance_in lib ip o (proxying b url) x t =
    let w = write_all o.calls (wrap_writer x.client) in
    some (record x { client = w.client }, to (releasing b url w (captured o.error)) t)
advance_in lib ip o (releasing b url w e) x t =
    some (record x { store = modify b decrement_conn x.store }, to (fetching b url w e) t)
advance_in lib ip o (fetching b url w e) x t =
    some (after_fetching b url w e x t x.handler.circuit_registry)
advance_in lib ip o (noting b url p w e) x t =
    some (after_noting o.finished_at b url p w e x t x.handler.circuit_registry)
advance_in lib ip o (completing b url w) x t = some (
  emitting x (
      emit_event
        (record (event o url) {
          type = response_completed;
          timestamp = o.finished_at;
          duration = o.duration;
          status_code = w.status_code;
        })
        x.handler),
  to (storing b) t,
)
advance_in lib ip o (storing b) x t = some (
  record x { store = modify b (Backend.record_response lib.float64 o.duration) x.store },
  to returned t,
)
advance_in lib ip o failing x t = some (unavailable lib x, to returned t)
advance_in lib ip o returned x t = none

unfoldable pub advance :
    Library → String → (ℕ → Outcome) → Exchange → Task → Option (Exchange × Task)
unfolding advance_in
advance lib ip outcomes x t = advance_in lib ip (outcomes t.number) t.phase x t
