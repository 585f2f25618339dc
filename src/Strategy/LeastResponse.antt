-- ===== src/Strategy/LeastResponse.antt =====
-- internal/strategy/leastresponse.go: the first backend without a sample, or else the one with the
-- least product of average response time and load. The product is one of 64 bits and may wrap.
pub mod Least
use go_loadbalancer.Prelude.{ℕ, List, [], ◌∷◌, Option, none, some, if◌then◌else◌}
use go_loadbalancer.Prelude.Int.{ℤ, pos, ltb_ℤ, beq_ℤ, add64, mul64}
use go_loadbalancer.Backend.{Backend, Store, ewma_time}

unfoldable pub score : Backend → ℤ
unfolding ewma_time add64 mul64
score b = mul64 (ewma_time b) (add64 b.active_connections (pos 1))

-- The loop, with the variables `chosen` and `best`.
scan : Store → Option ℕ → ℤ → List ℕ → Option ℕ
scan store chosen best [] = chosen
scan store none best (b ∷ bs) =
    let rest = scan store (some b) (score (store b)) bs in
    if beq_ℤ (ewma_time (store b)) (pos 0) then some b else rest
scan store (some c) best (b ∷ bs) =
    let less = ltb_ℤ (score (store b)) best in
    let rest =
      scan store (some (if less then b else c)) (if less then score (store b) else best) bs in
    if beq_ℤ (ewma_time (store b)) (pos 0) then some b else rest

unfoldable pub select_backend : Store → List ℕ → Option ℕ
unfolding scan score
select_backend store [] = none
select_backend store (b ∷ bs) = scan store none (pos 0) (b ∷ bs)
