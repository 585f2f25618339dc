-- ===== src/Scripts/LoadTest/Report.antt =====
-- The end of scripts/loadtest.go: the latencies of all backends together, an entry of the JSON summary,
-- and the exit status. An index out of range would make the program panic.
pub mod Sorted
pub mod Indexes
pub mod Exit
use go_loadbalancer.Prelude.{
  ℕ, ◌-◌, ◌^◌, Bool, true, false, ◌&&◌, List, [], ◌∷◌, Option, none, some, length, get_elem?, ltb,
  if◌then◌else◌, ◌>>=◌,
}
use go_loadbalancer.Prelude.Int.{ℤ, pos}
use go_loadbalancer.Go.Float.{p50, p90, p95, p99, int_product}
use go_loadbalancer.Go.Sort.{sort, int_order}
use go_loadbalancer.Metrics.{sum64, quotient}
use go_loadbalancer.Scripts.LoadTest.{BackendStats, Shared}
use go_loadbalancer.Scripts.LoadTest.Summary.{Summary}

-- The element at a part of the way through a list, none for a panic.
unfoldable pub pick : List ℤ → ℕ → Option ℤ
unfolding int_product
pick tmp p = get_elem? tmp (int_product (length tmp - 1) p)

-- What is printed of the sorted latencies.
pub shown : List ℤ → Option Summary
unfolding pick sum64 quotient
shown tmp = do
  least ← get_elem? tmp 0
  greatest ← get_elem? tmp (length tmp - 1)
  at50 ← pick tmp p50
  at90 ← pick tmp p90
  at95 ← pick tmp p95
  at99 ← pick tmp p99
  some (record {
    min = least;
    max = greatest;
    avg = quotient (sum64 (pos 0) tmp) (length tmp);
    p50 = at50;
    p90 = at90;
    p95 = at95;
    p99 = at99;
  })

-- The latencies of all requests; nothing is printed of none.
pub data Overall : Type 0 where
  nothing panics : Overall
  prints : Summary → Overall

abbrev pub printed : Option Summary → Overall
printed none = panics
printed (some s) = prints s

unfoldable pub overall : List ℤ → Overall
unfolding shown sort
overall [] = nothing
overall (d ∷ ds) = printed (shown (sort int_order (d ∷ ds)))

-- An entry of the JSON summary; the percentiles are floats of the type `F`.
pub record BackendSummary (F : Type 0) : Type 0 where
  pub total : ℕ
  pub success : ℕ
  pub failure : ℕ
  pub p50 : F
  pub p90 : F
  pub p95 : F
  pub p99 : F

-- `float64(d.Milliseconds())`
abbrev pub milliseconds : {F : Type 0} → (ℤ → F) → ℤ → F
milliseconds float64 d = float64 (quotient d 1000000)

abbrev pub with_picks : {F : Type 0} → (ℤ → F) → BackendStats → List ℤ → Option (BackendSummary F)
with_picks float64 bs tmp = do
  at50 ← pick tmp p50
  at90 ← pick tmp p90
  at95 ← pick tmp p95
  at99 ← pick tmp p99
  some (record {
    total = bs.count;
    success = bs.success;
    failure = bs.failure;
    p50 = milliseconds float64 at50;
    p90 = milliseconds float64 at90;
    p95 = milliseconds float64 at95;
    p99 = milliseconds float64 at99;
  })

-- `float64` is the conversion of an integer; none for a panic.
unfoldable pub backend_summary : {F : Type 0} → (ℤ → F) → BackendStats → Option (BackendSummary F)
unfolding pick sort quotient
backend_summary float64 bs =
    if ltb 0 (length bs.latencies)
    then with_picks float64 bs (sort int_order bs.latencies)
    else some (record {
      total = bs.count;
      success = bs.success;
      failure = bs.failure;
      p50 = float64 (pos 0);
      p90 = float64 (pos 0);
      p95 = float64 (pos 0);
      p99 = float64 (pos 0);
    })

-- The exit status, given whether the file of the JSON summary could be created, if there is one. The
-- count is an `int32`.
unfoldable pub exit_status : Option Bool → Shared → ℕ
exit_status (some false) s = 1
exit_status json s = if ltb 0 s.failure && ltb s.failure (2 ^ 31) then 2 else 0
