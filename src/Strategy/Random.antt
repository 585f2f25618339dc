-- ===== src/Strategy/Random.antt =====
-- internal/strategy/random.go. The value of `rand.IntN(len(backends))` is an argument, called `draw`.
use go_loadbalancer.Prelude.{ℕ, List, [], ◌∷◌, Option, none, get_elem?}

unfoldable pub select_backend : ℕ → List ℕ → Option ℕ
select_backend draw [] = none
select_backend draw (b ∷ bs) = get_elem? (b ∷ bs) draw
