-- ===== src/Metrics/Samples.antt =====
-- The statistics that a snapshot of internal/metrics/metrics.go gives of the response times.
use native.Mathlib.Nat.{le-div_iff_mul-le, div-le_of_le-mul}
use go_loadbalancer.Prelude.{
  ℕ, ◌+◌, ◌*◌, ◌/◌, ◌^◌, ◌≤◌, ◌<◌, ◌≡◌, refl, arith, List, [], ◌∷◌, String, length, lt→ltb, get_or,
  All,
}
use go_loadbalancer.Prelude.Int.{ℤ, pos, negsuc, ◌≤ℤ◌, add64, add64_pos}
use go_loadbalancer.Prelude.Map.{get, string_key}
use go_loadbalancer.Go.Sort.{sort, int_order, sort-Ascending, length-sort, get_or-mono}
use go_loadbalancer.Go.Float.{p50, p95, p99, int_product_exact}
use go_loadbalancer.Metrics.{
  Metrics, sum64, quotient, average, percentile_index, percentile, backend_metrics,
}

-- The samples of a backend, ascending.
abbrev pub sorted_samples : String → Metrics → List ℤ
sorted_samples backend m = sort int_order (get [] backend m.response_times)

percentile_rank :
    (xs : List ℤ)
    → 0 < length xs
    → length xs ≤ 1000
    → (percentile xs p50 ≡ get_or xs (length xs * 50 / 100) (pos 0))
      × (percentile xs p95 ≡ get_or xs (length xs * 95 / 100) (pos 0))
      × (percentile xs p99 ≡ get_or xs (length xs * 99 / 100) (pos 0))
unfolding percentile percentile_index
percentile_rank [] some_sample small = absurd (omega arith)
percentile_rank (d ∷ ds) some_sample small =
    let (e50, e95, e99) = int_product_exact (length (d ∷ ds)) small in
    (
      rw (e50, lt→ltb (length (d ∷ ds) * 50 / 100) (length (d ∷ ds)) (omega arith)) refl,
      rw (e95, lt→ltb (length (d ∷ ds) * 95 / 100) (length (d ∷ ds)) (omega arith)) refl,
      rw (e99, lt→ltb (length (d ∷ ds) * 99 / 100) (length (d ∷ ds)) (omega arith)) refl,
    )

-- Of a backend with at least one sample and at most 1000, a snapshot gives as percentiles the
-- samples at ranks 50, 95 and 99 of 100 in ascending order, rounded down; so they rise.
pub backend_metrics-percentiles :
    (backend : String) (m : Metrics)
    → 0 < length (get [] backend m.response_times)
    → length (get [] backend m.response_times) ≤ 1000
    → let r = backend_metrics backend m in
      let xs = sorted_samples backend m in
      (r.p50_response ≡ get_or xs (length xs * 50 / 100) (pos 0))
      × (r.p95_response ≡ get_or xs (length xs * 95 / 100) (pos 0))
      × (r.p99_response ≡ get_or xs (length xs * 99 / 100) (pos 0))
      × (r.p50_response ≤ℤ r.p95_response)
      × (r.p95_response ≤ℤ r.p99_response)
unfolding backend_metrics
backend_metrics-percentiles backend m some_sample small =
    let xs = sorted_samples backend m in
    let size = length-sort int_order (get [] backend m.response_times) in
    let asc = sort-Ascending int_order (get [] backend m.response_times) in
    let (e50, e95, e99) = percentile_rank xs (omega (arith, size)) (omega (arith, size)) in
    (
      e50,
      e95,
      e99,
      rw (e50, e95)
          (get_or-mono int_order xs (length xs * 50 / 100) (length xs * 95 / 100) (pos 0) asc
            (omega arith) (omega (arith, size))),
      rw (e95, e99)
          (get_or-mono int_order xs (length xs * 95 / 100) (length xs * 99 / 100) (pos 0) asc
            (omega arith) (omega (arith, size))),
    )

sum64_bounds :
    (lo hi : ℕ) (sum : ℕ) (xs : List ℤ)
    → All (λ d. (pos lo ≤ℤ d) × (d ≤ℤ pos hi)) xs
    → sum + length xs * hi < 2 ^ 63
    → (t : ℕ) × (sum64 (pos sum) xs ≡ pos t)
      × (sum + length xs * lo ≤ t)
      × (t ≤ sum + length xs * hi)
unfolding sum64
sum64_bounds lo hi sum [] h small = (sum, refl, omega arith, omega arith)
sum64_bounds lo hi sum (pos d ∷ ds) (bound, h) small =
    let (t, e, above, below) = sum64_bounds lo hi (sum + d) ds h (omega arith) in
    let exact : add64 (pos sum) (pos d) ≡ pos (sum + d) = add64_pos sum d (omega arith) in
    (t, rw exact e, omega arith, omega arith)
sum64_bounds lo hi sum (negsuc d ∷ ds) (bound, h) small = absurd (omega arith)

quotient_bounds : (lo hi n t : ℕ) → 0 < n → n * lo ≤ t → t ≤ n * hi → (lo ≤ t / n) × (t / n ≤ hi)
quotient_bounds lo hi n t h a b = ((le-div_iff_mul-le h).1 (omega arith), div-le_of_le-mul n b)

-- The average of samples that lie between two durations, neither negative, lies between them too,
-- as long as the number of samples times the upper one fits an `int64`.
pub average_bounds :
    (lo hi : ℕ) (xs : List ℤ)
    → 0 < length xs
    → All (λ d. (pos lo ≤ℤ d) × (d ≤ℤ pos hi)) xs
    → length xs * hi < 2 ^ 63
    → (pos lo ≤ℤ average xs) × (average xs ≤ℤ pos hi)
unfolding average quotient
average_bounds lo hi [] some_sample h small = absurd (omega arith)
average_bounds lo hi (d ∷ ds) some_sample h small =
    let (t, e, above, below) = sum64_bounds lo hi 0 (d ∷ ds) h (omega arith) in
    let (low, high) =
      quotient_bounds lo hi (length (d ∷ ds)) t some_sample (omega arith) (omega arith) in
    rw e (omega arith)
