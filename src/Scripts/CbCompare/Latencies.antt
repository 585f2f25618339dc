-- ===== src/Scripts/CbCompare/Latencies.antt =====
-- The latencies that a run of scripts/cbcompare.go reports, against those of its requests.
use mathlib.Core.List.{append-nil, append_assoc}
use go_loadbalancer.Prelude.{
  ℕ, zero, suc, ◌*◌, ◌^◌, ◌<◌, ◌≡◌, refl, sym, ap, subst, ◌∙◌, ◌⊎◌, inl, inr, arith, List, [], ◌∷◌,
  ◌++◌, length, In, All, All-In, Bool-cases, if◌then◌else◌,
}
use go_loadbalancer.Prelude.Int.{ℤ, pos, ltb_ℤ, add64, ◌≤ℤ◌, pos_part, eq_of_parts}
use go_loadbalancer.Prelude.Map.{int_key}
use go_loadbalancer.Metrics.{average}
use go_loadbalancer.Scripts.LoadTest.Summary.{Extent, extend}
use go_loadbalancer.Scripts.LoadTest.Summary.Extremes
use go_loadbalancer.Scripts.LoadTest.Summary.Extremes.{
  Extended, extend-Extended, average-between, zero_max,
}
use go_loadbalancer.Scripts.CbCompare.{
  TestResult, Reply, no_answer, answer, Sent, Progress, counted, kill_at, noted, send_all, hour,
  started, run_test,
}
use go_loadbalancer.Scripts.CbCompare.Counts.{kill_at-same}

abbrev pub latencies_of : (ℕ → Sent) → ℕ → ℕ → List ℤ
latencies_of outcomes zero i = []
latencies_of outcomes (suc left) i = (outcomes i).latency ∷ latencies_of outcomes left (suc i)

length-latencies_of :
    (outcomes : ℕ → Sent) (left i : ℕ) → length (latencies_of outcomes left i) ≡ left
length-latencies_of outcomes zero i = refl
length-latencies_of outcomes (suc left) i = omega (arith, length-latencies_of outcomes left (suc i))

-- The latencies against the least, the greatest and the average one that are reported.
pub record Timed (xs : List ℤ) (lo hi avg : ℤ) : Type 0 where
  pub all_between : All (λ d. (lo ≤ℤ d) × (d ≤ℤ hi)) xs
  pub lo_in : In lo xs
  pub hi_in : In hi xs
  pub avg_above : lo ≤ℤ avg
  pub avg_below : avg ≤ℤ hi

abbrev from_hour : Extent
from_hour = record { min = hour; max = pos 0; sum = pos 0 }

-- The start of `min` shows only if every latency is an hour.
hour_min : (d m : ℤ) (ds : List ℤ) → d ≤ℤ hour → m ≤ℤ d → (m ≡ hour) ⊎ In m (d ∷ ds) → In m (d ∷ ds)
hour_min d m ds top low (inr i) = i
hour_min d m ds top low (inl e) =
    let above : hour ≤ℤ d = subst (λ n. n ≤ℤ d) e low in
    let an_hour : d ≡ hour = eq_of_parts d hour (omega (arith, top, above)) in inl (e ∙ sym an_hour)

from_hour-Timed :
    (xs : List ℤ)
    → 0 < length xs
    → All (λ d. (pos 0 ≤ℤ d) × (d ≤ℤ hour)) xs
    → length xs * pos_part (extend xs from_hour).max < 2 ^ 63
    → Timed xs (extend xs from_hour).min (extend xs from_hour).max (average xs)
from_hour-Timed [] some_latency in_hour small = absurd (omega arith)
from_hour-Timed (d ∷ ds) some_latency in_hour small =
    let xs = d ∷ ds in
    let h = extend-Extended xs from_hour in
    let e = extend xs from_hour in
    let least : In e.min xs = hour_min d e.min ds in_hour.0.1 h.between.0.0 h.min_in in
    let (above, below) =
      average-between e.min e.max xs some_latency
        (All-In (λ x. (pos 0 ≤ℤ x) × (x ≤ℤ hour)) xs in_hour least).0 h.between small in
    record {
      all_between = h.between;
      lo_in = least;
      hi_in = zero_max d e.max ds in_hour.0.0 h.between.0.1 h.max_in;
      avg_above = above;
      avg_below = below;
    }

module _ {F : Type 0} where
  counted-same :
      (reply : Reply) (r : TestResult F)
      → ((counted reply r).min_latency ≡ r.min_latency)
        × ((counted reply r).max_latency ≡ r.max_latency)
  unfolding counted
  counted-same (no_answer text) r = (refl, refl)
  counted-same (answer status) r = elim (Bool-cases (ltb_ℤ status (pos 500))) [
    | inl fine ↦ rw fine (refl, refl)
    | inr bad ↦ rw bad (refl, refl)
  ]

  -- What the latencies so far amount to.
  abbrev extent : ℤ → Progress F → Extent
  extent sum p = record { min = p.result.min_latency; max = p.result.max_latency; sum = sum }

  noted-extent :
      (d sum : ℤ) (q p : Progress F)
      → q.result.min_latency ≡ (Extremes.noted d (extent sum p)).min
      → q.result.max_latency ≡ (Extremes.noted d (extent sum p)).max
      → extent (add64 sum d) q ≡ Extremes.noted d (extent sum p)
  noted-extent d sum q p least most k = record { min = least k; max = most k; sum = add64 sum d }

  abbrev Measured : ℤ → List ℤ → Progress F → Progress F → Type 0
  Measured sum xs p q =
      (q.latencies ≡ p.latencies ++ xs)
      × (q.result.min_latency ≡ (extend xs (extent sum p)).min)
      × (q.result.max_latency ≡ (extend xs (extent sum p)).max)

  send_all-Measured :
      (ka : ℤ) (outcomes : ℕ → Sent) (left i : ℕ) (sum : ℤ) (p : Progress F)
      → Measured sum (latencies_of outcomes left i) p (send_all ka outcomes left i p)
  unfolding send_all extend
  send_all-Measured ka outcomes zero i sum p = (sym (append-nil p.latencies), refl, refl)
  send_all-Measured ka outcomes (suc left) i sum p =
      let d = (outcomes i).latency in
      let q = kill_at ka i p in
      let (same_result, same_latencies) = kill_at-same ka i p in
      let (same_min, same_max) = counted-same (outcomes i).reply q.result in
      let (all, least, most) =
        send_all-Measured ka outcomes left (suc i) (add64 sum d) (noted (outcomes i) q) in
      let one : extent (add64 sum d) (noted (outcomes i) q) ≡ Extremes.noted d (extent sum p) =
        noted-extent d sum (noted (outcomes i) q) p
          (ap (λ m. if ltb_ℤ d m then d else m) (same_min ∙ ap (λ r. r.min_latency) same_result))
          (ap (λ m. if ltb_ℤ m d then d else m) (same_max ∙ ap (λ r. r.max_latency) same_result)) in
      (
        all
            ∙ ap (λ ds. (ds ++ (d ∷ [])) ++ latencies_of outcomes left (suc i)) same_latencies
            ∙ append_assoc p.latencies (d ∷ []) (latencies_of outcomes left (suc i)),
        least ∙ ap (λ e. (extend (latencies_of outcomes left (suc i)) e).min) one,
        most ∙ ap (λ e. (extend (latencies_of outcomes left (suc i)) e).max) one,
      )

  -- Of at least one request, each of which took between no time and an hour, a run reports the least and
  -- the greatest latency, and an average between them, if the number of requests times the greatest fits
  -- an `int64`.
  pub run_test-Timed :
      (no_rate : F) (rate : ℤ → ℤ → F) (name : List ℕ) (n : ℕ) (kill_after : ℤ)
      (outcomes : ℕ → Sent) (duration : ℤ)
      → 0 < n
      → All (λ d. (pos 0 ≤ℤ d) × (d ≤ℤ hour)) (latencies_of outcomes n 0)
      → n * pos_part (run_test no_rate rate name (pos n) kill_after outcomes duration).max_latency
        < 2 ^ 63
      → let r = run_test no_rate rate name (pos n) kill_after outcomes duration in
        Timed (latencies_of outcomes n 0) r.min_latency r.max_latency r.avg_latency
  unfolding run_test
  run_test-Timed no_rate rate name n kill_after outcomes duration some_request in_hour small =
      let xs = latencies_of outcomes n 0 in
      let (all, least, most) =
        send_all-Measured kill_after outcomes n 0 (pos 0) (started no_rate name (pos n)) in
      let count = length-latencies_of outcomes n 0 in
      let hi = (extend xs from_hour).max in
      let fits : n * pos_part hi < 2 ^ 63 = subst (λ m. n * pos_part m < 2 ^ 63) most small in
      rw (least, most, all)
        (from_hour-Timed xs (omega (arith, count, some_request)) in_hour
          (subst (λ k. k * pos_part hi < 2 ^ 63) (sym count) fits))
