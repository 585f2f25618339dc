-- ===== src/Strategy/Weighted/Tests.antt =====
-- The theorems on the weighted strategy over two backends with the weights 3 and 1.
use go_loadbalancer.Prelude.{
  ℕ, ◌+◌, ◌*◌, ◌<◌, ◌≡◌, refl, inl, inr, arith, List, [], ◌∷◌, if◌then◌else◌, length, In, true,
  false,
}
use go_loadbalancer.Prelude.Int.{pos, ◌<ℤ◌, ◌+ℤ◌, pos_part}
use go_loadbalancer.Prelude.Map.{◌==◌, nat_key}
use go_loadbalancer.Backend.{Store}
use go_loadbalancer.Strategy.Weighted.{new, at}
use go_loadbalancer.Strategy.Weighted.Visits.{weight_of, total}
use go_loadbalancer.Strategy.Weighted.Fair.{Weights}
use go_loadbalancer.Strategy.Weighted.Shares.{after, choices, times, times-share, times-cycle}

abbrev store : Store
store p = record {
  url = "http://a:1";
  is_healthy = true;
  active_connections = pos 0;
  weight = if p == 0 then pos 3 else pos 1;
  ewma_response_time = pos 0;
  has_ewma = false;
}

abbrev backends : List ℕ
backends = 0 ∷ 1 ∷ []

total_four : total store backends ≡ pos 4
unfolding total ◌+ℤ◌
total_four = refl

positive_weight : (b : ℕ) → In b backends → pos 0 <ℤ weight_of store b
positive_weight b (inl e) = rw e (omega arith)
positive_weight b (inr (inl e)) = rw e (omega arith)
positive_weight b (inr (inr i)) = elim i [ ]

weights : Weights store backends
weights = record {
  distinct =
      ((λ i. elim i [ inl e ↦ omega (arith, e) | inr j ↦ elim j [ ] ]), ((λ i. elim i [ ]), tt));
  weighted = omega arith;
  positive = positive_weight;
  fits = rw total_four (omega arith);
}

times-share_example :
    (times 0 (choices store backends 3 new) * pos_part (total store backends)
      < 3 * pos_part (weight_of store 0) + pos_part (total store backends))
    × (3 * pos_part (weight_of store 0)
        < times 0 (choices store backends 3 new) * pos_part (total store backends)
          + length backends * pos_part (total store backends))
times-share_example = times-share store backends weights 3 0 (inl refl)

times-cycle_example :
    (times 0 (choices store backends (pos_part (total store backends)) new)
      ≡ pos_part (weight_of store 0))
    × (at (after store backends (pos_part (total store backends)) new) 0 ≡ pos 0)
times-cycle_example = times-cycle store backends weights 0 (inl refl)
