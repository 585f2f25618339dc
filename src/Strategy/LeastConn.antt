-- ===== src/Strategy/LeastConn.antt =====
-- internal/strategy/leastconn.go: the first backend with the fewest active connections.
pub mod Least
use go_loadbalancer.Prelude.{ℕ, ◌-◌, ◌^◌, List, [], ◌∷◌, Option, none, some, if◌then◌else◌}
use go_loadbalancer.Prelude.Int.{ℤ, pos, ltb_ℤ}
use go_loadbalancer.Backend.{Store}

-- `math.MaxInt32`, the count that `bestConns` starts from.
abbrev pub max_int32 : ℤ
max_int32 = pos (2 ^ 31 - 1)

-- The loop, with the variables `bestBackend` and `bestConns`.
scan : Store → Option ℕ → ℤ → List ℕ → Option ℕ
scan store best best_conns [] = best
scan store best best_conns (b ∷ bs) =
    let fewer = ltb_ℤ (store b).active_connections best_conns in
    scan store (if fewer then some b else best)
      (if fewer then (store b).active_connections else best_conns) bs

unfoldable pub select_backend : Store → List ℕ → Option ℕ
unfolding scan
select_backend store [] = none
select_backend store (b ∷ bs) = scan store none max_int32 (b ∷ bs)
