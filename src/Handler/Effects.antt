-- ===== src/Handler/Effects.antt =====
-- What `ServeHTTP` of internal/handler/handler.go does to the collector and to the breakers.
use go_loadbalancer.Prelude.{ℕ, Bool, true, none, some, String}
use go_loadbalancer.Prelude.Map.{string_key}
use go_loadbalancer.Breaker.{Breaker, allow}
use go_loadbalancer.Registry.{get_breaker, write}
use go_loadbalancer.Collector.{MetricEvent, try_send}
use go_loadbalancer.Handler.State.{LoadBalancerHandler, Library}

unfoldable pub emit_event : MetricEvent → LoadBalancerHandler → LoadBalancerHandler
emit_event e h = elim h.metrics_collector [
  | none ↦ h
  | some c ↦ record h { metrics_collector = some (try_send e c) }
]

-- A method of the breaker for `url`, if there is a registry.
unfoldable pub on_breaker : String → (Breaker → Breaker) → LoadBalancerHandler → LoadBalancerHandler
on_breaker url f h = elim h.circuit_registry [
  | none ↦ h
  | some r ↦
      let (found, p) = get_breaker url r in
      record h { circuit_registry = some (write p (f (found.heap p)) found) }
]

unfoldable pub allowed : Library → ℕ → String → LoadBalancerHandler → LoadBalancerHandler × Bool
allowed lib now url h = elim h.circuit_registry [
  | none ↦ (h, true)
  | some r ↦
      let (found, p) = get_breaker url r in
      let (b, admits) = allow lib.since now (found.heap p) in
      (record h { circuit_registry = some (write p b found) }, admits)
]
