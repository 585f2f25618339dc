-- ===== src/Collector/Tests.antt =====
-- The theorems on the collector at concrete events.
use go_loadbalancer.Prelude.{◌≡◌, arith, List, [], ◌∷◌, true, false}
use go_loadbalancer.Prelude.Int.{pos}
use go_loadbalancer.Metrics
use go_loadbalancer.Metrics.{snapshot}
use go_loadbalancer.Collector.{
  MetricEvent, request_received, response_completed, health_changed, process_all, drain,
}
use go_loadbalancer.Collector.Tally.{
  Tallied, requests_of, selections_of, durations_of, last_health, process_all-Tallied,
}
use go_loadbalancer.Collector.Delivery.{
  System, start, Reach, here, next, sends, Delivered, Reach-Delivered, drain_processes_all,
}

abbrev received : MetricEvent
received = record {
  type = request_received;
  timestamp = 5;
  backend = "http://a:1";
  duration = pos 0;
  status_code = 0;
  healthy = false;
}

abbrev events : List MetricEvent
events =
    received
    ∷ record received { type = response_completed; duration = pos 40; status_code = 200 }
    ∷ record received { type = health_changed; healthy = true }
    ∷ []

process_all-Tallied_example :
    Tallied "http://a:1"
      (requests_of "http://a:1" events)
      (selections_of "http://a:1" events)
      (durations_of "http://a:1" events)
      (last_health "http://a:1" false events)
      (process_all events (Metrics.new 0))
process_all-Tallied_example = process_all-Tallied "http://a:1" 0 events (omega arith)

abbrev reached : (s : System) × Reach (start 1 0) s
reached = (_, next (next here (sends (start 1 0) received)) (sends _ received))

Reach-Delivered_example : Delivered 0 1 reached.0
Reach-Delivered_example = Reach-Delivered 0 1 reached.1

drain_processes_all_example :
    ((drain reached.0.collector).metrics ≡ process_all reached.0.accepted (Metrics.new 0))
    × ((drain reached.0.collector).event_ch ≡ [])
drain_processes_all_example = drain_processes_all 0 1 reached.1
