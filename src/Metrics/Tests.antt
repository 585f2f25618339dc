-- ===== src/Metrics/Tests.antt =====
-- The theorems on the statistics at concrete samples.
use go_loadbalancer.Prelude.{◌*◌, ◌/◌, ◌≡◌, arith, List, [], ◌∷◌, length, get_or}
use go_loadbalancer.Prelude.Int.{ℤ, pos, ◌≤ℤ◌}
use go_loadbalancer.Prelude.Map.{get, string_key}
use go_loadbalancer.Metrics.{Metrics, new, backend_metrics}
use go_loadbalancer.Metrics.Samples.{sorted_samples, backend_metrics-percentiles}

abbrev samples : List ℤ
samples = pos 30 ∷ pos 10 ∷ pos 20 ∷ []

abbrev metrics : Metrics
metrics = record (new 0) { response_times = ("http://a:1", samples) ∷ [] }

backend_metrics-percentiles_example :
    let r = backend_metrics "http://a:1" metrics in
    let xs = sorted_samples "http://a:1" metrics in
    (r.p50_response ≡ get_or xs (length xs * 50 / 100) (pos 0))
    × (r.p95_response ≡ get_or xs (length xs * 95 / 100) (pos 0))
    × (r.p99_response ≡ get_or xs (length xs * 99 / 100) (pos 0))
    × (r.p50_response ≤ℤ r.p95_response)
    × (r.p95_response ≤ℤ r.p99_response)
unfolding get
backend_metrics-percentiles_example =
    backend_metrics-percentiles "http://a:1" metrics (omega arith) (omega arith)
