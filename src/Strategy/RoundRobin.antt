-- ===== src/Strategy/RoundRobin.antt =====
-- internal/strategy/roundrobin.go. The counter is a `uint64`, and `atomic.AddUint64` makes a
-- selection one step on it.
pub mod Cycle
use go_loadbalancer.Prelude.{
  ℕ, ◌+◌, ◌-◌, ◌%◌, ◌^◌, List, [], ◌∷◌, Option, none, some, length, get_elem?,
}

unfoldable pub new : ℕ
new = 0

-- `backends[(n - 1) % uint64(len(backends))]` for the `n` that the addition returns.
at_turn : ℕ → List ℕ → Option ℕ
at_turn n backends = get_elem? backends ((n + 2 ^ 64 - 1) % 2 ^ 64 % length backends)

-- The new counter and the backend chosen, `none` for nil.
unfoldable pub select_backend : ℕ → List ℕ → ℕ × Option ℕ
unfolding at_turn
select_backend current [] = (current, none)
select_backend current (b ∷ bs) = let n = (current + 1) % 2 ^ 64 in (n, at_turn n (b ∷ bs))
