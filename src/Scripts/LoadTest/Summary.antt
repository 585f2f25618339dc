-- ===== src/Scripts/LoadTest/Summary.antt =====
-- The summary of the latencies of one backend that scripts/loadtest.go prints.
pub mod Extremes
use go_loadbalancer.Prelude.{
  ℕ, zero, suc, ◌-◌, Bool, List, [], ◌∷◌, length, get_or, leb, if◌then◌else◌,
}
use go_loadbalancer.Prelude.Int.{ℤ, pos, ltb_ℤ, add64}
use go_loadbalancer.Go.Float.{p50, p90, p95, p99, int_product}
use go_loadbalancer.Go.Sort.{sort, int_order}
use go_loadbalancer.Metrics.{quotient}

-- The variables of the loop over the latencies.
pub record Extent : Type 0 where
  pub min : ℤ
  pub max : ℤ
  pub sum : ℤ

unfoldable pub extend : List ℤ → Extent → Extent
unfolding add64
extend [] e = e
extend (d ∷ ds) e = extend ds (record {
  min = if ltb_ℤ d e.min then d else e.min;
  max = if ltb_ℤ e.max d then d else e.max;
  sum = add64 e.sum d;
})

-- The index is never below 0, and cut at the last one.
unfoldable pub percentile_of : List ℤ → ℕ → ℤ
unfolding int_product
percentile_of tmp p =
    let idx = int_product (length tmp - 1) p in
    get_or tmp (if leb (length tmp) idx then length tmp - 1 else idx) (pos 0)

pub record Summary : Type 0 where
  pub min : ℤ
  pub max : ℤ
  pub avg : ℤ
  pub p50 : ℤ
  pub p90 : ℤ
  pub p95 : ℤ
  pub p99 : ℤ

-- On no latencies, every value is 0.
unfoldable pub summarize : List ℤ → Summary
unfolding extend quotient percentile_of sort
summarize [] = record {
  min = pos 0;
  max = pos 0;
  avg = pos 0;
  p50 = pos 0;
  p90 = pos 0;
  p95 = pos 0;
  p99 = pos 0;
}
summarize (d ∷ ds) =
    let e = extend (d ∷ ds) (record { min = d; max = pos 0; sum = pos 0 }) in
    let tmp = sort int_order (d ∷ ds) in
    record {
      min = e.min;
      max = e.max;
      avg = quotient e.sum (length (d ∷ ds));
      p50 = percentile_of tmp p50;
      p90 = percentile_of tmp p90;
      p95 = percentile_of tmp p95;
      p99 = percentile_of tmp p99;
    }
