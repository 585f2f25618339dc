-- ===== src/Scripts/LoadTest/Summary/Extremes.antt =====
-- The values that the summary of scripts/loadtest.go shows, against the latencies.
use go_loadbalancer.Prelude.{
  ℕ, ◌*◌, ◌^◌, ◌<◌, ◌≡◌, refl, sym, ◌∙◌, ◌⊎◌, inl, inr, arith, List, [], ◌∷◌, length, In, All,
  All-In, Bool-cases, subst, if◌then◌else◌,
}
use go_loadbalancer.Prelude.Int.{ℤ, pos, negsuc, pos_part, ◌≤ℤ◌, ltb_ℤ, add64, eq_of_parts}
use go_loadbalancer.Go.Sort.{sort, int_order, All-sort, length-sort, get_or-In}
use go_loadbalancer.Metrics.{sum64, average, quotient}
use go_loadbalancer.Metrics.Samples.{average_bounds}
use go_loadbalancer.Scripts.LoadTest.Summary.{Extent, extend, percentile_of, Summary, summarize}

pub record Extended (e : Extent) (xs : List ℤ) (r : Extent) : Type 0 where
  pub lowers : r.min ≤ℤ e.min
  pub raises : e.max ≤ℤ r.max
  pub between : All (λ d. (r.min ≤ℤ d) × (d ≤ℤ r.max)) xs
  pub min_in : (r.min ≡ e.min) ⊎ In r.min xs
  pub max_in : (r.max ≡ e.max) ⊎ In r.max xs
  pub sum_all : r.sum ≡ sum64 e.sum xs

-- The body of the loop.
abbrev pub noted : ℤ → Extent → Extent
noted d e = record {
  min = if ltb_ℤ d e.min then d else e.min;
  max = if ltb_ℤ e.max d then d else e.max;
  sum = add64 e.sum d;
}

noted-bounds :
    (d : ℤ) (e : Extent)
    → ((noted d e).min ≤ℤ e.min)
      × ((noted d e).min ≤ℤ d)
      × (e.max ≤ℤ (noted d e).max)
      × (d ≤ℤ (noted d e).max)
      × (((noted d e).min ≡ e.min) ⊎ ((noted d e).min ≡ d))
      × (((noted d e).max ≡ e.max) ⊎ ((noted d e).max ≡ d))
noted-bounds d e = (ground arith, ground arith, ground arith, ground arith, lesser, greater)
  where
    lesser : ((noted d e).min ≡ e.min) ⊎ ((noted d e).min ≡ d)
    lesser = elim (Bool-cases (ltb_ℤ d e.min)) [
      | inl less ↦ inr (rw less refl)
      | inr more ↦ inl (rw more refl)
    ]

    greater : ((noted d e).max ≡ e.max) ⊎ ((noted d e).max ≡ d)
    greater = elim (Bool-cases (ltb_ℤ e.max d)) [
      | inl more ↦ inr (rw more refl)
      | inr less ↦ inl (rw less refl)
    ]

from_rest :
    {r a b : ℤ} (d : ℤ) (ds : List ℤ)
    → (r ≡ a) ⊎ In r ds
    → (a ≡ b) ⊎ (a ≡ d)
    → (r ≡ b) ⊎ In r (d ∷ ds)
from_rest d ds (inl e) (inl f) = inl (e ∙ f)
from_rest d ds (inl e) (inr f) = inr (inl (e ∙ f))
from_rest d ds (inr i) _ = inr (inr i)

pub extend-Extended : (xs : List ℤ) (e : Extent) → Extended e xs (extend xs e)
unfolding extend sum64
extend-Extended [] e = record {
  lowers = omega arith;
  raises = omega arith;
  between = tt;
  min_in = inl refl;
  max_in = inl refl;
  sum_all = refl;
}
extend-Extended (d ∷ ds) e =
    let h = extend-Extended ds (noted d e) in
    let (a, b, c, f, at_min, at_max) = noted-bounds d e in
    record {
      lowers = omega (arith, h.lowers, a);
      raises = omega (arith, h.raises, c);
      between = ((omega (arith, h.lowers, b), omega (arith, h.raises, f)), h.between);
      min_in = from_rest d ds h.min_in at_min;
      max_in = from_rest d ds h.max_in at_max;
      sum_all = h.sum_all;
    }

percentile_of-All :
    (P : ℤ → Type 0) (xs : List ℤ) (p : ℕ)
    → 0 < length xs
    → All P xs
    → P (percentile_of (sort int_order xs) p)
unfolding percentile_of
percentile_of-All P xs p some_latency all =
    All-In P (sort int_order xs) (All-sort int_order P xs all) (
      get_or-In (sort int_order xs) _ (pos 0)
        (ground (arith, some_latency, length-sort int_order xs)))

abbrev Between : Summary → ℤ → Type 0
Between s d = (s.min ≤ℤ d) × (d ≤ℤ s.max)

-- The least and the greatest latency, with what lies between them.
pub record Summarized (xs : List ℤ) (s : Summary) : Type 0 where
  pub all_between : All (Between s) xs
  pub min_in : In s.min xs
  pub max_in : In s.max xs
  pub avg_between : Between s s.avg
  pub p50_between : Between s s.p50
  pub p90_between : Between s s.p90
  pub p95_between : Between s s.p95
  pub p99_between : Between s s.p99

-- The average lies between any two bounds of the latencies.
pub average-between :
    (lo hi : ℤ) (xs : List ℤ)
    → 0 < length xs
    → pos 0 ≤ℤ lo
    → All (λ d. (lo ≤ℤ d) × (d ≤ℤ hi)) xs
    → length xs * pos_part hi < 2 ^ 63
    → (lo ≤ℤ average xs) × (average xs ≤ℤ hi)
average-between (negsuc a) hi xs some_latency low all small = absurd (omega arith)
average-between (pos a) (pos b) xs some_latency low all small =
    average_bounds a b xs some_latency all small
average-between (pos a) (negsuc b) [] some_latency low all small = absurd (omega arith)
average-between (pos a) (negsuc b) (d ∷ ds) some_latency low all small =
    let (above, below) = all.0 in absurd (omega (arith, above, below))

-- The start of `max` shows only if every latency is 0.
pub zero_max :
    (d m : ℤ) (ds : List ℤ) → pos 0 ≤ℤ d → d ≤ℤ m → (m ≡ pos 0) ⊎ In m (d ∷ ds) → In m (d ∷ ds)
zero_max d m ds low top (inr i) = i
zero_max d m ds low top (inl e) =
    let below : d ≤ℤ pos 0 = subst (λ n. d ≤ℤ n) e top in
    let zero_d : d ≡ pos 0 = eq_of_parts d (pos 0) (omega (arith, low, below)) in
    inl (e ∙ sym zero_d)

-- Of at least one latency, none negative, whose number times the greatest fits an `int64`, the summary
-- shows the least and the greatest one, and an average and percentiles between them.
pub summarize-Summarized :
    (xs : List ℤ)
    → 0 < length xs
    → All (λ d. pos 0 ≤ℤ d) xs
    → length xs * pos_part (summarize xs).max < 2 ^ 63
    → Summarized xs (summarize xs)
unfolding summarize average
summarize-Summarized [] some_latency all small = absurd (omega arith)
summarize-Summarized (d ∷ ds) some_latency all small =
    let xs = d ∷ ds in
    let h = extend-Extended xs (record { min = d; max = pos 0; sum = pos 0 }) in
    let s = summarize xs in
    let least : In s.min xs = elim h.min_in [ inl e ↦ inl e | inr i ↦ i ] in
    record {
      all_between = h.between;
      min_in = least;
      max_in = zero_max d s.max ds all.0 h.between.0.1 h.max_in;
      avg_between =
          subst (λ t. Between s (quotient t (length xs))) (sym h.sum_all)
            (average-between s.min s.max xs some_latency (All-In (λ d. pos 0 ≤ℤ d) xs all least)
              h.between small);
      p50_between = percentile_of-All (Between s) xs _ some_latency h.between;
      p90_between = percentile_of-All (Between s) xs _ some_latency h.between;
      p95_between = percentile_of-All (Between s) xs _ some_latency h.between;
      p99_between = percentile_of-All (Between s) xs _ some_latency h.between;
    }
