-- ===== src/Strategy/Tests.antt =====
-- The theorems on the simple strategies at concrete backends.
use go_loadbalancer.Prelude.{
  ℕ, ◌+◌, ◌<◌, ◌%◌, ◌≡◌, ◌⊎◌, arith, List, [], ◌∷◌, none, some, true, if◌then◌else◌, length,
  get_elem?, All,
}
use go_loadbalancer.Prelude.Int.{pos, ◌≤ℤ◌, ◌<ℤ◌}
use go_loadbalancer.Prelude.Map.{◌==◌, nat_key}
use go_loadbalancer.Backend.{Store}
use go_loadbalancer.Strategy.Minimum.{IsFirstLeast}
use go_loadbalancer.Strategy.LeastConn
use go_loadbalancer.Strategy.LeastConn.{max_int32}
use go_loadbalancer.Strategy.LeastConn.Least.{conns, fewest_connections}
use go_loadbalancer.Strategy.LeastResponse
use go_loadbalancer.Strategy.LeastResponse.Least.{
  IsFirstUnsampled, Unsampled, score_of, quickest_response,
}
use go_loadbalancer.Strategy.RoundRobin.Cycle.{selections, every_position_once}

-- Backend 7 has five connections, the others have two.
abbrev store : Store
store p = record {
  url = "http://a:1";
  is_healthy = true;
  active_connections = if p == 7 then pos 5 else pos 2;
  weight = pos 1;
  ewma_response_time = pos 30;
  has_ewma = true;
}

abbrev backends : List ℕ
backends = 7 ∷ 8 ∷ 9 ∷ []

every_position_once_example :
    (i : ℕ) × (i < length backends)
    × (get_elem? (selections (length backends) 10 backends) i ≡ some (get_elem? backends 2))
    × ((other : ℕ) → other < length backends → (10 + other) % length backends ≡ 2 → other ≡ i)
every_position_once_example =
    every_position_once 10 2 backends (omega arith) (omega arith) (omega arith)

fewest_connections_example :
    ((LeastConn.select_backend store backends ≡ none)
      × All (λ q. max_int32 ≤ℤ conns store q) backends)
    ⊎ ((p : ℕ) × (LeastConn.select_backend store backends ≡ some p)
        × (conns store p <ℤ max_int32)
        × IsFirstLeast (conns store) p backends)
fewest_connections_example = fewest_connections store backends

quickest_response_example :
    ((backends ≡ []) × (LeastResponse.select_backend store backends ≡ none))
    ⊎ ((p : ℕ) × (LeastResponse.select_backend store backends ≡ some p)
        × IsFirstUnsampled store p backends)
    ⊎ ((p : ℕ) × (LeastResponse.select_backend store backends ≡ some p)
        × All (λ q. ¬ Unsampled store q) backends
        × IsFirstLeast (score_of store) p backends)
quickest_response_example = quickest_response store backends
