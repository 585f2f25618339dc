-- ===== src/LoadBalancer.antt =====
-- internal/loadbalancer/loadbalancer.go: choosing a healthy backend and reserving a connection on it.
pub mod Reserve
pub mod Sections
mod Tests
use go_loadbalancer.Prelude.{
  ℕ, Bool, true, false, List, [], ◌∷◌, Option, none, some, String, if◌then◌else◌,
}
use go_loadbalancer.Backend.{Backend, Store, increment_conn, modify}
use go_loadbalancer.Strategy.{Strategy, select_backend, takes_key, set_key}

pub data Error : Type 0 where
  no_healthy_backends nil_backend : Error

pub data Result : Type 0 where
  ok : ℕ → Result
  err : Error → Result

-- What a call leaves and answers.
pub record Reply : Type 0 where
  pub strategy : Strategy
  pub store : Store
  pub result : Result

unfoldable pub filter_healthy : Store → List ℕ → List ℕ
filter_healthy store [] = []
filter_healthy store (b ∷ bs) =
    let rest = filter_healthy store bs in if (store b).is_healthy then b ∷ rest else rest

-- `chosen.IncrementConn()`, unless the strategy chose nil.
reserve : Store → Strategy × Option ℕ → Reply
unfolding modify increment_conn
reserve store (strategy, none) = record {
  strategy = strategy;
  store = store;
  result = err nil_backend;
}
reserve store (strategy, some b) = record {
  strategy = strategy;
  store = modify b increment_conn store;
  result = ok b;
}

-- The part after the filter.
choose : ℕ → Store → Strategy → List ℕ → Reply
unfolding reserve
choose draw store strategy [] = record {
  strategy = strategy;
  store = store;
  result = err no_healthy_backends;
}
choose draw store strategy (b ∷ bs) = reserve store (select_backend draw store (b ∷ bs) strategy)

unfoldable pub get_and_reserve_server : ℕ → List ℕ → Strategy → Store → Reply
unfolding filter_healthy choose
get_and_reserve_server draw backends strategy store =
    choose draw store strategy (filter_healthy store backends)

select : ℕ → Store → Strategy → List ℕ → Strategy × Option ℕ
select draw store strategy [] = (strategy, none)
select draw store strategy (b ∷ bs) = select_backend draw store (b ∷ bs) strategy

-- The critical section of `GetAndReserveServer` alone, with none for either error; the connection is
-- counted after it.
unfoldable pub pick : ℕ → List ℕ → Strategy → Store → Strategy × Option ℕ
unfolding filter_healthy select
pick draw backends strategy store = select draw store strategy (filter_healthy store backends)

-- With a key, which is set only if there is a healthy backend.
keyed : String → List ℕ → Strategy → Strategy
keyed key [] strategy = strategy
keyed key (b ∷ bs) strategy = if takes_key strategy then set_key key strategy else strategy

unfoldable pub get_and_reserve_server_with_key : ℕ → List ℕ → String → Strategy → Store → Reply
unfolding filter_healthy choose keyed
get_and_reserve_server_with_key draw backends key strategy store =
    let healthy = filter_healthy store backends in
    choose draw store (keyed key healthy strategy) healthy
