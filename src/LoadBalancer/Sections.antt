-- ===== src/LoadBalancer/Sections.antt =====
-- `GetAndReserveServer` of internal/loadbalancer/loadbalancer.go in its two parts: the critical section,
-- and the count of the connection after it. With a key both are under the lock.
use go_loadbalancer.Prelude.{ℕ, ◌≡◌, refl, List, [], ◌∷◌, Option, none, some, String}
use go_loadbalancer.Backend.{Store, modify, increment_conn}
use go_loadbalancer.Strategy.{Strategy, select_backend}
use go_loadbalancer.LoadBalancer.{
  Error, Result, ok, err, Reply, filter_healthy, reserve, choose, select, pick,
  get_and_reserve_server, get_and_reserve_server_with_key,
}

-- The reply when the connection is counted on what was picked.
abbrev pub Counted : Store → Strategy × Option ℕ → Reply → Type 0
Counted store (strategy, none) r =
    (r.strategy ≡ strategy) × (r.store ≡ store) × (e : Error) × (r.result ≡ err e)
Counted store (strategy, some b) r =
    (r.strategy ≡ strategy) × (r.store ≡ modify b increment_conn store) × (r.result ≡ ok b)

reserve-Counted : (store : Store) (p : Strategy × Option ℕ) → Counted store p (reserve store p)
unfolding reserve
reserve-Counted store (strategy, none) = (refl, refl, _, refl)
reserve-Counted store (strategy, some b) = (refl, refl, refl)

choose-Counted :
    (draw : ℕ) (store : Store) (strategy : Strategy) (bs : List ℕ)
    → Counted store (select draw store strategy bs) (choose draw store strategy bs)
unfolding select choose
choose-Counted draw store strategy [] = (refl, refl, _, refl)
choose-Counted draw store strategy (b ∷ bs) =
    reserve-Counted store (select_backend draw store (b ∷ bs) strategy)

-- Counting the connection after the critical section gives what the call gives.
pub pick-Counted :
    (draw : ℕ) (bs : List ℕ) (strategy : Strategy) (store : Store)
    → Counted store (pick draw bs strategy store) (get_and_reserve_server draw bs strategy store)
unfolding pick get_and_reserve_server
pick-Counted draw bs strategy store = choose-Counted draw store strategy (filter_healthy store bs)

-- What is left of the store when a call ends.
abbrev pub Booked : Store → Result → Store → Type 0
Booked store (ok b) after = after ≡ modify b increment_conn store
Booked store (err e) after = after ≡ store

choose-Booked :
    (draw : ℕ) (store : Store) (strategy : Strategy) (bs : List ℕ)
    → Booked store (choose draw store strategy bs).result (choose draw store strategy bs).store
unfolding choose reserve
choose-Booked draw store strategy [] = refl
choose-Booked draw store strategy (b ∷ bs) = booked (select_backend draw store (b ∷ bs) strategy)
  where
    booked :
        (p : Strategy × Option ℕ) → Booked store (reserve store p).result (reserve store p).store
    booked (s, none) = refl
    booked (s, some c) = refl

pub get_and_reserve_server_with_key-Booked :
    (draw : ℕ) (bs : List ℕ) (key : String) (strategy : Strategy) (store : Store)
    → let r = get_and_reserve_server_with_key draw bs key strategy store in
      Booked store r.result r.store
unfolding get_and_reserve_server_with_key
get_and_reserve_server_with_key-Booked draw bs key strategy store =
    choose-Booked draw store _ (filter_healthy store bs)
