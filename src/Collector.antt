-- ===== src/Collector.antt =====
-- internal/metrics/collector.go: the events of the metrics, the buffered channel that carries them,
-- and the goroutine that receives them. `emitEvent` of internal/handler/handler.go is the sender.
pub mod Tally
pub mod Totals
pub mod Delivery
pub mod Endpoint
mod Tests
use go_loadbalancer.Prelude.{
  ℕ, Bool, List, [], ◌∷◌, ◌++◌, Option, none, some, String, length, ltb, if◌then◌else◌,
}
use go_loadbalancer.Prelude.Int.{ℤ}
use go_loadbalancer.Metrics.{
  Metrics, increment_requests, record_backend_selection, record_response, update_health_status,
}
use go_loadbalancer.Metrics

pub data EventType : Type 0 where
  request_received backend_selected response_completed health_changed : EventType

pub record MetricEvent : Type 0 where
  pub type : EventType
  pub timestamp : ℕ
  pub backend : String
  pub duration : ℤ
  pub status_code : ℕ
  pub healthy : Bool

-- The buffer of `eventCh`, oldest first, with the state that the goroutine writes.
pub record Collector : Type 0 where
  pub event_ch : List MetricEvent
  pub buffer_size : ℕ
  pub metrics : Metrics

unfoldable pub new : ℕ → ℕ → Collector
new buffer_size now = record { event_ch = []; buffer_size = buffer_size; metrics = Metrics.new now }

-- The `switch` of `processEvent`.
process_type : EventType → MetricEvent → Metrics → Metrics
process_type request_received e m = increment_requests e.backend m
process_type backend_selected e m = record_backend_selection e.backend m
process_type response_completed e m = record_response e.backend e.duration e.status_code m
process_type health_changed e m = update_health_status e.backend e.healthy m

unfoldable pub process_event : MetricEvent → Metrics → Metrics
unfolding process_type
process_event e m = process_type e.type e m

unfoldable pub process_all : List MetricEvent → Metrics → Metrics
process_all [] m = m
process_all (e ∷ es) m = process_all es (process_event e m)

-- `select { case ch <- event: default: }`: a full buffer drops the event.
unfoldable pub try_send : MetricEvent → Collector → Collector
try_send e c =
    if ltb (length c.event_ch) c.buffer_size
    then record c { event_ch = c.event_ch ++ (e ∷ []) }
    else c

-- One round of `run` that receives an event; with an empty buffer it blocks.
receive_from : List MetricEvent → Collector → Option Collector
receive_from [] c = none
receive_from (e ∷ es) c = some (record c { event_ch = es; metrics = process_event e c.metrics })

unfoldable pub receive : Collector → Option Collector
unfolding receive_from
receive c = receive_from c.event_ch c

-- `drain`: receive until the buffer is empty. `es` is what the buffer holds.
drain_from : List MetricEvent → Collector → Collector
drain_from [] c = c
drain_from (e ∷ es) c =
    drain_from es (record c { event_ch = es; metrics = process_event e c.metrics })

unfoldable pub drain : Collector → Collector
unfolding drain_from
drain c = drain_from c.event_ch c
