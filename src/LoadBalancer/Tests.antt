-- ===== src/LoadBalancer/Tests.antt =====
-- The theorem on reservations at concrete backends.
use go_loadbalancer.Prelude.{refl, [], ◌∷◌, true, false, if◌then◌else◌}
use go_loadbalancer.Prelude.Int.{pos}
use go_loadbalancer.Prelude.Map.{◌==◌, nat_key}
use go_loadbalancer.Backend.{Store}
use go_loadbalancer.Strategy.{least_conn, takes_key}
use go_loadbalancer.LoadBalancer.{get_and_reserve_server, get_and_reserve_server_with_key}
use go_loadbalancer.LoadBalancer.Reserve.{Reserved, get_and_reserve_server-Reserved}

-- Backend 0 is down.
abbrev store : Store
store p = record {
  url = "http://a:1";
  is_healthy = if p == 0 then false else true;
  active_connections = pos 4;
  weight = pos 1;
  ewma_response_time = pos 0;
  has_ewma = false;
}

get_and_reserve_server-Reserved_example :
    Reserved store least_conn
      (0 ∷ 1 ∷ 2 ∷ [])
      (get_and_reserve_server 0 (0 ∷ 1 ∷ 2 ∷ []) least_conn store)
    × Reserved store least_conn
        (0 ∷ 1 ∷ 2 ∷ [])
        (get_and_reserve_server_with_key 0 (0 ∷ 1 ∷ 2 ∷ []) "10.0.0.1" least_conn store)
unfolding takes_key
get_and_reserve_server-Reserved_example =
    get_and_reserve_server-Reserved 0 (0 ∷ 1 ∷ 2 ∷ []) "10.0.0.1" least_conn store refl
