-- ===== src/Strategy.antt =====
-- internal/strategy: the interface `Strategy` with its six implementations as one type, and
-- `createStrategy` of cmd/main.go.
pub mod Minimum
pub mod RoundRobin
pub mod Random
pub mod LeastConn
pub mod LeastResponse
pub mod Weighted
pub mod ConsistentHash
pub mod Choice
mod Tests
use go_loadbalancer.Prelude.{ℕ, Bool, true, false, List, Option, String, if◌then◌else◌}
use go_loadbalancer.Prelude.Int.{ℤ}
use go_loadbalancer.Prelude.Map.{◌==◌, string_key}
use go_loadbalancer.Backend.{Store}
use ConsistentHash.{ConsistentHashStrategy}

pub data Strategy : Type 0 where
  round_robin : ℕ → Strategy
  random least_conn least_response : Strategy
  weighted : Weighted.Current → Strategy
  consistent_hash : ConsistentHashStrategy → Strategy

-- `SelectBackend`. `draw` is the value of `rand.IntN(len(backends))`, which `random` alone reads.
unfoldable pub select_backend : ℕ → Store → List ℕ → Strategy → Strategy × Option ℕ
select_backend draw store bs (round_robin current) =
    let (next, chosen) = RoundRobin.select_backend current bs in (round_robin next, chosen)
select_backend draw store bs random = (random, Random.select_backend draw bs)
select_backend draw store bs least_conn = (least_conn, LeastConn.select_backend store bs)
select_backend draw store bs least_response =
    (least_response, LeastResponse.select_backend store bs)
select_backend draw store bs (weighted current) =
    let (next, chosen) = Weighted.select_backend store bs current in (weighted next, chosen)
select_backend draw store bs (consistent_hash s) =
    let (next, chosen) = ConsistentHash.select_backend store bs s in (consistent_hash next, chosen)

-- The type assertion to `interface{ SetKey(string) }`.
unfoldable pub takes_key : Strategy → Bool
takes_key (consistent_hash s) = true
takes_key _ = false

unfoldable pub set_key : String → Strategy → Strategy
set_key key (consistent_hash s) = consistent_hash (ConsistentHash.set_key key s)
set_key key s = s

unfoldable pub create_strategy : String → ℤ → Strategy
create_strategy strategy_type virtual_nodes =
    if strategy_type == "round-robin"
    then round_robin RoundRobin.new
    else if strategy_type == "random"
    then random
    else if strategy_type == "least-conn"
    then least_conn
    else if strategy_type == "least-response"
    then least_response
    else if strategy_type == "consistent_hash"
    then consistent_hash (ConsistentHash.new virtual_nodes)
    else if strategy_type == "weighted-round-robin"
    then weighted Weighted.new
    else round_robin RoundRobin.new
