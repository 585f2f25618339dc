-- ===== src/Scripts/LoadTest/Report/Indexes.antt =====
-- The values that the end of scripts/loadtest.go takes from the sorted latencies.
use go_loadbalancer.Prelude.{
  ℕ, ◌-◌, ◌*◌, ◌^◌, ◌<◌, ◌≡◌, refl, sym, ap, ◌∙◌, arith, true, false, List, [], ◌∷◌, some, length,
  get_elem?-get_or, get_or, All, All-In, leb, ltb, if◌then◌else◌,
}
use go_loadbalancer.Prelude.Int.{ℤ, pos, pos_part, ◌≤ℤ◌}
use go_loadbalancer.Go.Float.{p50, p90, p95, p99, int_product}
use go_loadbalancer.Go.Float.Below.{int_product-le}
use go_loadbalancer.Go.Sort.{
  sort, int_order, In-sort, length-sort, All-sort, sort-Ascending, get_or-In,
}
use go_loadbalancer.Metrics.{sum64, quotient}
use go_loadbalancer.Scripts.LoadTest.{BackendStats}
use go_loadbalancer.Scripts.LoadTest.Summary.{percentile_of, extend, summarize}
use go_loadbalancer.Scripts.LoadTest.Summary.Extremes.{extend-Extended, summarize-Summarized}
use go_loadbalancer.Scripts.LoadTest.Report.Sorted.{
  first-least, last-greatest, sum64-sort, parts-le, antisym,
}
use go_loadbalancer.Scripts.LoadTest.Report.{
  pick, shown, prints, printed, overall, milliseconds, with_picks, backend_summary,
}

-- The index is in range, so the cut of `percentile_of` changes nothing.
pick-percentile_of :
    (tmp : List ℤ) (p : ℕ) → 0 < length tmp → p < 2 ^ 53 → pick tmp p ≡ some (percentile_of tmp p)
unfolding pick percentile_of
pick-percentile_of tmp p some_latency below =
    let le = int_product-le (length tmp - 1) p below in
    let inside : leb (length tmp) (int_product (length tmp - 1) p) ≡ false =
      ground (arith, le, some_latency) in
    rw inside (
      get_elem?-get_or tmp (int_product (length tmp - 1) p) (pos 0)
        (omega (arith, le, some_latency)))

shown-some :
    (tmp : List ℤ)
    → 0 < length tmp
    → shown tmp
      ≡ some (record {
        min = get_or tmp 0 (pos 0);
        max = get_or tmp (length tmp - 1) (pos 0);
        avg = quotient (sum64 (pos 0) tmp) (length tmp);
        p50 = percentile_of tmp p50;
        p90 = percentile_of tmp p90;
        p95 = percentile_of tmp p95;
        p99 = percentile_of tmp p99;
      })
unfolding shown
shown-some tmp some_latency =
    rw
      (
        get_elem?-get_or tmp 0 (pos 0) some_latency,
        get_elem?-get_or tmp (length tmp - 1) (pos 0) (omega (arith, some_latency)),
        pick-percentile_of tmp p50 some_latency (omega arith),
        pick-percentile_of tmp p90 some_latency (omega arith),
        pick-percentile_of tmp p95 some_latency (omega arith),
        pick-percentile_of tmp p99 some_latency (omega arith),
      )
      refl

-- Of at least one latency, none negative, whose number times the greatest fits an `int64`, the values that
-- are taken from the sorted ones are those of the loop over them, and no index is out of range.
sorted-summarize :
    (xs : List ℤ)
    → 0 < length xs
    → All (λ d. pos 0 ≤ℤ d) xs
    → length xs * pos_part (summarize xs).max < 2 ^ 63
    → shown (sort int_order xs) ≡ some (summarize xs)
unfolding summarize
sorted-summarize [] some_latency low small = absurd (omega arith)
sorted-summarize (d ∷ ds) some_latency low small =
    let xs = d ∷ ds in
    let tmp = sort int_order xs in
    let s = summarize xs in
    let h = summarize-Summarized xs some_latency low small in
    let asc = sort-Ascending int_order xs in
    let count = length-sort int_order xs in
    let between = All-sort int_order (λ x. (s.min ≤ℤ x) × (x ≤ℤ s.max)) xs h.all_between in
    let at_first = get_or-In tmp 0 (pos 0) (omega (arith, count)) in
    let at_last = get_or-In tmp (length tmp - 1) (pos 0) (omega (arith, count)) in
    let least : get_or tmp 0 (pos 0) ≡ s.min =
      antisym _ _ (All-In _ tmp (first-least tmp asc) (In-sort int_order s.min xs h.min_in))
        (All-In _ tmp between at_first).0 in
    let greatest : get_or tmp (length tmp - 1) (pos 0) ≡ s.max =
      antisym _ _ (All-In _ tmp between at_last).1
        (All-In _ tmp (last-greatest tmp asc) (In-sort int_order s.max xs h.max_in)) in
    let total : sum64 (pos 0) tmp ≡ (extend xs (record { min = d; max = pos 0; sum = pos 0 })).sum =
      sum64-sort xs low
        (omega (arith, parts-le s.max xs (tops s.min s.max xs h.all_between), small))
      ∙ sym (extend-Extended xs (record { min = d; max = pos 0; sum = pos 0 })).sum_all in
    shown-some tmp (omega (arith, count)) ∙ (λ k. some (record {
      min = least k;
      max = greatest k;
      avg = quotient (total k) (count k);
      p50 = percentile_of tmp p50;
      p90 = percentile_of tmp p90;
      p95 = percentile_of tmp p95;
      p99 = percentile_of tmp p99;
    }))
  where
    tops : (lo hi : ℤ) (zs : List ℤ) → All (λ x. (lo ≤ℤ x) × (x ≤ℤ hi)) zs → All (λ x. x ≤ℤ hi) zs
    tops lo hi [] all = tt
    tops lo hi (z ∷ zs) all = (all.0.1, tops lo hi zs all.1)

-- Of at least one latency, none negative, whose number times the greatest fits an `int64`, the load test
-- prints for all backends together what it would print of one backend with these latencies, and no
-- index is out of range.
pub overall-summarize :
    (xs : List ℤ)
    → 0 < length xs
    → All (λ d. pos 0 ≤ℤ d) xs
    → length xs * pos_part (summarize xs).max < 2 ^ 63
    → overall xs ≡ prints (summarize xs)
unfolding overall
overall-summarize [] some_latency low small = absurd (omega arith)
overall-summarize (d ∷ ds) some_latency low small =
    ap printed (sorted-summarize (d ∷ ds) some_latency low small)

no_time : quotient (pos 0) 1000000 ≡ pos 0
unfolding quotient
no_time = refl

with_picks-some :
    {F : Type 0} (float64 : ℤ → F) (bs : BackendStats) (tmp : List ℤ)
    → 0 < length tmp
    → with_picks float64 bs tmp
      ≡ some (record {
        total = bs.count;
        success = bs.success;
        failure = bs.failure;
        p50 = milliseconds float64 (percentile_of tmp p50);
        p90 = milliseconds float64 (percentile_of tmp p90);
        p95 = milliseconds float64 (percentile_of tmp p95);
        p99 = milliseconds float64 (percentile_of tmp p99);
      })
with_picks-some float64 bs tmp some_latency =
    rw
      (
        pick-percentile_of tmp p50 some_latency (omega arith),
        pick-percentile_of tmp p90 some_latency (omega arith),
        pick-percentile_of tmp p95 some_latency (omega arith),
        pick-percentile_of tmp p99 some_latency (omega arith),
      )
      refl

-- The JSON summary holds the percentiles that are printed for the backend, in milliseconds, and no index
-- is out of range, whatever the latencies.
pub backend_summary_lem :
    {F : Type 0} (float64 : ℤ → F) (bs : BackendStats)
    → let s = summarize bs.latencies in
      backend_summary float64 bs
      ≡ some (record {
        total = bs.count;
        success = bs.success;
        failure = bs.failure;
        p50 = milliseconds float64 s.p50;
        p90 = milliseconds float64 s.p90;
        p95 = milliseconds float64 s.p95;
        p99 = milliseconds float64 s.p99;
      })
unfolding backend_summary summarize
backend_summary_lem float64 bs = of_latencies bs.latencies
  where
    of_latencies :
        (ds : List ℤ)
        → (if ltb 0 (length ds)
            then with_picks float64 bs (sort int_order ds)
            else some (record {
              total = bs.count;
              success = bs.success;
              failure = bs.failure;
              p50 = float64 (pos 0);
              p90 = float64 (pos 0);
              p95 = float64 (pos 0);
              p99 = float64 (pos 0);
            }))
          ≡ some (record {
            total = bs.count;
            success = bs.success;
            failure = bs.failure;
            p50 = milliseconds float64 (summarize ds).p50;
            p90 = milliseconds float64 (summarize ds).p90;
            p95 = milliseconds float64 (summarize ds).p95;
            p99 = milliseconds float64 (summarize ds).p99;
          })
    of_latencies [] = rw no_time refl
    of_latencies (d ∷ ds) =
        let some_latency : ltb 0 (length (d ∷ ds)) ≡ true = ground arith in
        rw some_latency (
          with_picks-some float64 bs (sort int_order (d ∷ ds))
            (omega (arith, length-sort int_order (d ∷ ds))))
