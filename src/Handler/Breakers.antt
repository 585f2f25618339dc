-- ===== src/Handler/Breakers.antt =====
-- What an attempt of `ServeHTTP` (internal/handler/handler.go) does to the circuit breakers.
use go_loadbalancer.Prelude.{
  ℕ, ◌≡◌, ◌≢◌, refl, ap, ◌∙◌, arith, Bool, true, false, List, ◌∷◌, Option, none, some, String,
  if◌then◌else◌,
}
use go_loadbalancer.Prelude.Map.{insert, string_key}
use go_loadbalancer.Backend.{with_proxy_error_capture, error_handler}
use go_loadbalancer.Breaker.{Breaker, allow, record_success, record_failure}
use go_loadbalancer.Registry.{Registry}
use go_loadbalancer.Registry.Laws.{IsValid}
use go_loadbalancer.Registry.View.{breaker_of, touch, touch_lem, get_breaker-at}
use go_loadbalancer.Collector.{MetricEvent}
use go_loadbalancer.Handler.Writer.{RetryableWriter}
use go_loadbalancer.Handler.State.{LoadBalancerHandler, Library, Outcome, Exchange}
use go_loadbalancer.Handler.Select.{chosen, select_backend}
use go_loadbalancer.Handler.Effects.{emit_event, on_breaker, allowed}
use go_loadbalancer.Handler.{captured, finish, forward, proceed, selected, attempt}

on_breaker-touch :
    (url : String) (f : Breaker → Breaker) (h : LoadBalancerHandler) (r : Registry)
    → h.circuit_registry ≡ some r
    → (on_breaker url f h).circuit_registry ≡ some (touch url f r)
unfolding on_breaker
on_breaker-touch url f h r e = rw (on_breaker, e) refl

allowed-touch :
    (lib : Library) (now : ℕ) (url : String) (h : LoadBalancerHandler) (r : Registry)
    → IsValid r
    → h.circuit_registry ≡ some r
    → ((allowed lib now url h).0.circuit_registry
        ≡ some (touch url (λ b. (allow lib.since now b).0) r))
      × ((allowed lib now url h).1 ≡ (allow lib.since now (breaker_of url r)).1)
unfolding allowed
allowed-touch lib now url h r valid e =
    rw (allowed, e) (refl, ap (λ b. (allow lib.since now b).1) (get_breaker-at url r valid))

emit_event-registry :
    (e : MetricEvent) (h : LoadBalancerHandler)
    → (emit_event e h).circuit_registry ≡ h.circuit_registry
unfolding emit_event
emit_event-registry e h = ground arith

-- What the outcome of a forwarded request is to the breaker.
abbrev pub settle : ℕ → Option String → Breaker → Breaker
settle now none b = record_success b
settle now (some e) b = record_failure now b

-- What an attempt is to the breaker of the backend that is chosen: the question whether it admits the
-- request, and, if so, the outcome.
abbrev pub asked : Library → Outcome → Breaker → Breaker × Bool
asked lib o b =
    let (b', admits) = allow lib.since o.allow_at b in
    if admits then (settle o.finished_at o.error b', true) else (b', false)

captured_lem : (e : Option String) → captured e ≡ e
unfolding with_proxy_error_capture error_handler
captured_lem none = refl
captured_lem (some e) = refl

finish-registry :
    (lib : Library) (o : Outcome) (b : ℕ) (url : String) (w : RetryableWriter) (e : Option String)
    (x : Exchange) (r : Registry)
    → x.handler.circuit_registry ≡ some r
    → ((finish lib o b url w e x).0.handler.circuit_registry
        ≡ some (touch url (settle o.finished_at e) r))
      × ((finish lib o b url w e x).0.forwarded ≡ x.forwarded)
unfolding finish
finish-registry lib o b url w none x r h =
    (emit_event-registry _ _ ∙ on_breaker-touch url record_success x.handler r h, refl)
finish-registry lib o b url w (some e) x r h =
    (on_breaker-touch url (record_failure o.finished_at) x.handler r h, refl)

forward-registry :
    (lib : Library) (o : Outcome) (b : ℕ) (url : String) (x : Exchange) (r : Registry)
    → x.handler.circuit_registry ≡ some r
    → ((forward lib o b url x).0.handler.circuit_registry
        ≡ some (touch url (settle o.finished_at o.error) r))
      × ((forward lib o b url x).0.forwarded ≡ b ∷ x.forwarded)
unfolding forward
forward-registry lib o b url x r h =
    let (held, same) =
      finish-registry lib o b url _ (captured o.error) _ r
        (emit_event-registry _ _ ∙ emit_event-registry _ x.handler ∙ h) in
    (held ∙ ap (λ e. some (touch url (settle o.finished_at e) r)) (captured_lem o.error), same)

-- The breakers after an attempt on the backend `b` of address `url`, and where the request went.
pub record Asked (lib : Library) (o : Outcome) (b : ℕ) (url : String) (r : Registry)
    (before : List ℕ) (y : Exchange) : Type 0 where
  pub registry : Registry
  pub held : y.handler.circuit_registry ≡ some registry
  pub valid : IsValid registry
  pub own : breaker_of url registry ≡ (asked lib o (breaker_of url r)).0
  pub others : (other : String) → other ≢ url → breaker_of other registry ≡ breaker_of other r
  pub sent : y.forwarded ≡ (if (asked lib o (breaker_of url r)).1 then b ∷ before else before)

proceed-Asked :
    (lib : Library) (o : Outcome) (b : ℕ) (url : String) (x : Exchange)
    (a : LoadBalancerHandler × Bool) (r : Registry)
    → IsValid r
    → a.0.circuit_registry ≡ some (touch url (λ b. (allow lib.since o.allow_at b).0) r)
    → a.1 ≡ (allow lib.since o.allow_at (breaker_of url r)).1
    → Asked lib o b url r x.forwarded (proceed lib o b url x a).0
unfolding proceed
proceed-Asked lib o b url x (h, false) r valid e admits =
    let (kept, own, others) = touch_lem url (λ b. (allow lib.since o.allow_at b).0) r valid in
    record {
      registry = touch url (λ b. (allow lib.since o.allow_at b).0) r;
      held = e;
      valid = kept;
      own = rw (← admits) own;
      others = others;
      sent = rw (← admits) refl;
    }
proceed-Asked lib o b url x (h, true) r valid e admits =
    let r1 = touch url (λ b. (allow lib.since o.allow_at b).0) r in
    let (kept, own, others) = touch_lem url (λ b. (allow lib.since o.allow_at b).0) r valid in
    let (kept2, own2, others2) = touch_lem url (settle o.finished_at o.error) r1 kept in
    let (held, went) = forward-registry lib o b url (record x { handler = h }) r1 e in
    record {
      registry = touch url (settle o.finished_at o.error) r1;
      held = held;
      valid = kept2;
      own = rw (← admits) (own2 ∙ ap (settle o.finished_at o.error) own);
      others = λ other ne. others2 other ne ∙ others other ne;
      sent = rw (← admits) went;
    }

-- With a registry, an attempt on a backend asks the breaker of its address alone: if that refuses, the
-- request goes nowhere; if it admits, the request is forwarded once, and the breaker records whether
-- the proxy failed. No other address's breaker changes.
pub attempt-breakers :
    (lib : Library) (ip : String) (o : Outcome) (x : Exchange) (r : Registry) (b : ℕ)
    → x.handler.circuit_registry ≡ some r
    → IsValid r
    → (select_backend o.draw ip x).selected ≡ chosen b
    → Asked lib o b ((select_backend o.draw ip x).store b).url r x.forwarded (attempt lib ip o x).0
unfolding attempt selected
attempt-breakers lib ip o x r b held valid e =
    let s = select_backend o.draw ip x in
    let (after, admits) =
      allowed-touch lib o.allow_at (s.store b).url (record x.handler { balancer = s.strategy }) r
        valid held in
    rw e (
      proceed-Asked lib o b (s.store b).url
        (record x {
          handler = record x.handler { balancer = s.strategy };
          store = s.store;
          tried = insert (s.store b).url true x.tried;
        })
        (allowed lib o.allow_at (s.store b).url (record x.handler { balancer = s.strategy })) r
        valid after admits)
