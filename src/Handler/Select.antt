-- ===== src/Handler/Select.antt =====
-- `selectBackend` of internal/handler/handler.go.
use go_loadbalancer.Prelude.{ℕ, Bool, false, not, ◌&&◌, List, [], ◌∷◌, String, if◌then◌else◌}
use go_loadbalancer.Prelude.Map.{Map, get, string_key}
use go_loadbalancer.Backend.{Store}
use go_loadbalancer.Strategy.{Strategy, takes_key}
use go_loadbalancer.LoadBalancer.{
  Error, Result, ok, err, Reply, get_and_reserve_server, get_and_reserve_server_with_key,
}
use go_loadbalancer.Handler.State.{Exchange}

pub data SelectError : Type 0 where
  server_closed : SelectError
  balancer_error : Error → SelectError

pub data Selected : Type 0 where
  chosen : ℕ → Selected
  failed : SelectError → Selected

pub record Selection : Type 0 where
  pub strategy : Strategy
  pub store : Store
  pub selected : Selected

abbrev pub from_result : Result → Selected
from_result (ok b) = chosen b
from_result (err e) = failed (balancer_error e)

abbrev pub from_reply : Reply → Selection
from_reply r = record { strategy = r.strategy; store = r.store; selected = from_result r.result }

-- The healthy backends whose address has not been tried.
unfoldable pub available : Store → Map String Bool → List ℕ → List ℕ
available store tried [] = []
available store tried (b ∷ bs) =
    let rest = available store tried bs in
    if not (get false (store b).url tried) && (store b).is_healthy then b ∷ rest else rest

unfoldable pub select_from : ℕ → String → Store → Strategy → List ℕ → Selection
select_from draw client_ip store strategy [] = record {
  strategy = strategy;
  store = store;
  selected = failed server_closed;
}
select_from draw client_ip store strategy (b ∷ bs) =
    if takes_key strategy
    then from_reply (get_and_reserve_server_with_key draw (b ∷ bs) client_ip strategy store)
    else from_reply (get_and_reserve_server draw (b ∷ bs) strategy store)

unfoldable pub select_backend : ℕ → String → Exchange → Selection
select_backend draw client_ip x =
    select_from draw client_ip x.store x.handler.balancer
      (available x.store x.tried x.handler.backends)
