-- ===== src/Metrics.antt =====
-- internal/metrics/metrics.go: counters, response times and status codes by backend address. Every
-- method holds the mutex for its whole body. `int64` and `time.Duration` are integers of 64 bits.
pub mod Samples
pub mod Marks
pub mod Counters
mod Tests
use go_loadbalancer.Prelude.{
  ℕ, ◌+◌, ◌-◌, ◌/◌, Bool, true, false, List, [], ◌∷◌, ◌++◌, String, length, get_or, ltb,
  if◌then◌else◌, drop,
}
use go_loadbalancer.Prelude.Int.{ℤ, pos, negsuc, add64}
use go_loadbalancer.Prelude.Map.{Map, Key, get, insert, ◌==◌, nat_key, string_key}
use go_loadbalancer.Go.Sort.{sort, int_order}
use go_loadbalancer.Go.Float.{int_product, p50, p95, p99}

pub record Metrics : Type 0 where
  pub requests : Map String ℤ
  pub selections : Map String ℤ
  pub response_times : Map String (List ℤ)
  pub status_codes : Map String (Map ℕ ℤ)
  pub health_status : Map String Bool
  pub start_time : ℕ

unfoldable pub new : ℕ → Metrics
new now = record {
  requests = [];
  selections = [];
  response_times = [];
  status_codes = [];
  health_status = [];
  start_time = now;
}

-- `m[k]++`
bump : {K : Type 0} ⦃e : Key K⦄ → K → Map K ℤ → Map K ℤ
unfolding get insert add64
bump k m = insert k (add64 (get (pos 0) k m) (pos 1)) m

unfoldable pub increment_requests : String → Metrics → Metrics
unfolding bump
increment_requests backend m = record m { requests = bump backend m.requests }

unfoldable pub record_backend_selection : String → Metrics → Metrics
unfolding bump
record_backend_selection backend m = record m { selections = bump backend m.selections }

abbrev pub max_samples : ℕ
max_samples = 1000

-- Append, and drop the oldest sample if there are more than 1000.
push_sample : ℤ → List ℤ → List ℤ
push_sample d samples =
    let longer = samples ++ (d ∷ []) in
    if ltb max_samples (length longer) then drop 1 longer else longer

unfoldable pub record_response : String → ℤ → ℕ → Metrics → Metrics
unfolding bump push_sample get insert
record_response backend duration status_code m = record m {
  response_times =
      insert backend (push_sample duration (get [] backend m.response_times)) m.response_times;
  status_codes = insert backend (bump status_code (get [] backend m.status_codes)) m.status_codes;
}

unfoldable pub update_health_status : String → Bool → Metrics → Metrics
unfolding insert
update_health_status backend healthy m = record m {
  health_status = insert backend healthy m.health_status;
}

-- `sum += d` over the samples.
unfoldable pub sum64 : ℤ → List ℤ → ℤ
unfolding add64
sum64 sum [] = sum
sum64 sum (d ∷ ds) = sum64 (add64 sum d) ds

-- Go's quotient by a positive number: cut towards 0.
unfoldable pub quotient : ℤ → ℕ → ℤ
quotient (pos a) n = pos (a / n)
quotient (negsuc a) n = let q = (a + 1) / n in if ltb 0 q then negsuc (q - 1) else pos 0

unfoldable pub average : List ℤ → ℤ
unfolding sum64 quotient
average [] = pos 0
average (d ∷ ds) = quotient (sum64 (pos 0) (d ∷ ds)) (length (d ∷ ds))

-- The index of a percentile in `n` samples.
percentile_index : ℕ → ℕ → ℕ
unfolding int_product
percentile_index n p = let i = int_product n p in if ltb i n then i else n - 1

unfoldable pub percentile : List ℤ → ℕ → ℤ
unfolding percentile_index
percentile [] p = pos 0
percentile (d ∷ ds) p = get_or (d ∷ ds) (percentile_index (length (d ∷ ds)) p) (pos 0)

pub record BackendMetrics : Type 0 where
  pub requests : ℤ
  pub selections : ℤ
  pub healthy : Bool
  pub avg_response : ℤ
  pub p50_response : ℤ
  pub p95_response : ℤ
  pub p99_response : ℤ
  pub status_codes : Map ℕ ℤ

-- The body of the loop over the addresses. On no samples the four times keep their zero value,
-- which `average` and `percentile` give of the empty list too.
unfoldable pub backend_metrics : String → Metrics → BackendMetrics
unfolding get sort average percentile
backend_metrics backend m =
    let sorted = sort int_order (get [] backend m.response_times) in
    record {
      requests = get (pos 0) backend m.requests;
      selections = get (pos 0) backend m.selections;
      healthy = get false backend m.health_status;
      avg_response = average sorted;
      p50_response = percentile sorted p50;
      p95_response = percentile sorted p95;
      p99_response = percentile sorted p99;
      status_codes = get [] backend m.status_codes;
    }

pub record Snapshot : Type 0 where
  pub total_requests : ℤ
  pub uptime : ℤ
  pub backends : Map String BackendMetrics
  pub algorithm : String

-- `allBackends[backend] = true` for each key of a map.
mark : {V : Type 0} → Map String V → Map String Bool → Map String Bool
unfolding insert
mark [] all = all
mark ((k, v) ∷ m) all = mark m (insert k true all)

unfoldable pub all_backends : Metrics → Map String Bool
unfolding mark
all_backends m =
    mark m.health_status (mark m.response_times (mark m.selections (mark m.requests [])))

-- The loop over `allBackends`.
summarize : Metrics → Map String Bool → Snapshot → Snapshot
unfolding backend_metrics get insert add64
summarize m [] snap = snap
summarize m ((backend, _) ∷ rest) snap = summarize m rest (record snap {
  total_requests = add64 snap.total_requests (get (pos 0) backend m.requests);
  backends = insert backend (backend_metrics backend m) snap.backends;
})

-- `since now t` is `time.Since(t)` at the moment `now`.
unfoldable pub snapshot : (ℕ → ℕ → ℤ) → ℕ → String → Metrics → Snapshot
unfolding summarize all_backends
snapshot since now algorithm m = summarize m (all_backends m) (record {
  total_requests = pos 0;
  uptime = since now m.start_time;
  backends = [];
  algorithm = algorithm;
})
