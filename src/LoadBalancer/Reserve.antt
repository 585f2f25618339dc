-- ===== src/LoadBalancer/Reserve.antt =====
-- The contract of a reservation (internal/loadbalancer/loadbalancer.go).
use go_loadbalancer.Prelude.{
  ℕ, ◌≡◌, refl, ap, ◌⊎◌, ◌↔◌, inl, inr, arith, true, false, List, [], ◌∷◌, Option, none, some,
  String, In, All, Bool-cases,
}
use go_loadbalancer.Backend.{Store, increment_conn, modify}
use go_loadbalancer.Strategy.{Strategy, select_backend, takes_key}
use go_loadbalancer.Strategy
use go_loadbalancer.Strategy.Choice.{select_backend-In}
use go_loadbalancer.LoadBalancer.{
  no_healthy_backends, nil_backend, ok, err, Reply, filter_healthy, reserve, choose,
  get_and_reserve_server, keyed, get_and_reserve_server_with_key,
}

abbrev pub Healthy : Store → ℕ → Type 0
Healthy store b = (store b).is_healthy ≡ true

filter_healthy-cons :
    (store : Store) (x : ℕ) (xs : List ℕ) (b : ℕ)
    → In b (filter_healthy store xs) ↔ (In b xs × Healthy store b)
    → In b (filter_healthy store (x ∷ xs)) ↔ (In b (x ∷ xs) × Healthy store b)
unfolding filter_healthy
filter_healthy-cons store x xs b rest = elim (Bool-cases (store x).is_healthy) [
  | inl up ↦ rw up ((λ i. kept up i), (λ h. keeps h))
  | inr down ↦ rw down ((λ i. let h = rest.0 i in (inr h.0, h.1)), (λ h. drops down h))
]
  where
    kept :
        Healthy store x
        → (b ≡ x) ⊎ In b (filter_healthy store xs)
        → ((b ≡ x) ⊎ In b xs) × Healthy store b
    kept up (inl e) = (inl e, rw e up)
    kept up (inr i) = let h = rest.0 i in (inr h.0, h.1)

    keeps : ((b ≡ x) ⊎ In b xs) × Healthy store b → (b ≡ x) ⊎ In b (filter_healthy store xs)
    keeps (inl e, up) = inl e
    keeps (inr i, up) = inr (rest.1 (i, up))

    drops :
        (store x).is_healthy ≡ false
        → ((b ≡ x) ⊎ In b xs) × Healthy store b
        → In b (filter_healthy store xs)
    drops down (inl e, up) = let same : (store x).is_healthy ≡ true = rw (← e) up in cc
    drops down (inr i, up) = rest.1 (i, up)

-- The filter keeps exactly the healthy ones.
filter_healthy-In :
    (store : Store) (bs : List ℕ) (b : ℕ)
    → In b (filter_healthy store bs) ↔ (In b bs × Healthy store b)
unfolding filter_healthy
filter_healthy-In store [] b = ((λ i. elim i [ ]), (λ h. elim h.0 [ ]))
filter_healthy-In store (x ∷ xs) b = filter_healthy-cons store x xs b (filter_healthy-In store xs b)

filter_healthy-none :
    (store : Store) (bs : List ℕ)
    → filter_healthy store bs ≡ []
    → All (λ b. (store b).is_healthy ≡ false) bs
unfolding filter_healthy
filter_healthy-none store [] e = tt
filter_healthy-none store (x ∷ xs) e = elim (Bool-cases (store x).is_healthy) [
  | inl up ↦ ground arith
  | inr down ↦ (down, filter_healthy-none store xs (ground arith))
]

-- The three ways in which a reservation ends. No backend offered is healthy: nothing changes. The
-- strategy chose nil: no connection is counted. Or a backend `b` is reserved: its count of active
-- connections alone rises, by one.
pub data Reserved (store : Store) (strategy : Strategy) (bs : List ℕ) (r : Reply) : Type 0 where
  unavailable :
      r.result ≡ err no_healthy_backends
      → All (λ b. (store b).is_healthy ≡ false) bs
      → r.store ≡ store
      → r.strategy ≡ strategy
      → Reserved store strategy bs r
  refused :
      r.result ≡ err nil_backend
      → (b : ℕ) → In b bs
      → Healthy store b
      → r.store ≡ store
      → Reserved store strategy bs r
  reserved :
      (b : ℕ)
      → r.result ≡ ok b
      → In b bs
      → Healthy store b
      → r.store ≡ modify b increment_conn store
      → Reserved store strategy bs r

choose-Reserved :
    (draw : ℕ) (store : Store) (strategy : Strategy) (bs healthy : List ℕ)
    → takes_key strategy ≡ false
    → filter_healthy store bs ≡ healthy
    → Reserved store strategy bs (choose draw store strategy healthy)
unfolding choose
choose-Reserved draw store strategy bs [] keyless e =
    unavailable refl (filter_healthy-none store bs e) refl refl
choose-Reserved draw store strategy bs (h ∷ hs) keyless e =
    reserved_choice (select_backend draw store (h ∷ hs) strategy) refl
  where
    offered : (b : ℕ) → In b (h ∷ hs) → In b bs × Healthy store b
    offered b i = (filter_healthy-In store bs b).0 (rw e i)

    reserved_choice :
        (c : Strategy × Option ℕ)
        → select_backend draw store (h ∷ hs) strategy ≡ c
        → Reserved store strategy bs (reserve store c)
    reserved_choice (next, none) found =
        let first = offered h (inl refl) in refused refl h first.0 first.1 refl
    reserved_choice (next, some b) found =
        let chosen =
          offered b
            (select_backend-In draw store (h ∷ hs) strategy keyless (ap (λ c. c.1) found)) in
        reserved b refl chosen.0 chosen.1 refl

-- `GetAndReserveServer` keeps this contract with every strategy but consistent hashing, and so does
-- `GetAndReserveServerWithKey`.
pub get_and_reserve_server-Reserved :
    (draw : ℕ) (bs : List ℕ) (key : String) (strategy : Strategy) (store : Store)
    → takes_key strategy ≡ false
    → Reserved store strategy bs (get_and_reserve_server draw bs strategy store)
      × Reserved store strategy bs (get_and_reserve_server_with_key draw bs key strategy store)
unfolding get_and_reserve_server get_and_reserve_server_with_key
get_and_reserve_server-Reserved draw bs key strategy store keyless = (
  choose-Reserved draw store strategy bs _ keyless refl,
  rw (keyed_keyless (filter_healthy store bs))
      (choose-Reserved draw store strategy bs _ keyless refl),
)
  where
    keyed_keyless : (hs : List ℕ) → keyed key hs strategy ≡ strategy
    keyed_keyless [] = refl
    keyed_keyless (h ∷ hs) = rw keyless refl

select-takes_key :
    (draw : ℕ) (store : Store) (bs : List ℕ) (s : Strategy)
    → takes_key (Strategy.select_backend draw store bs s).0 ≡ takes_key s
unfolding Strategy.select_backend takes_key
select-takes_key draw store bs (Strategy.round_robin c) = refl
select-takes_key draw store bs Strategy.random = refl
select-takes_key draw store bs Strategy.least_conn = refl
select-takes_key draw store bs Strategy.least_response = refl
select-takes_key draw store bs (Strategy.weighted c) = refl
select-takes_key draw store bs (Strategy.consistent_hash c) = refl

choose-takes_key :
    (draw : ℕ) (store : Store) (strategy : Strategy) (bs : List ℕ)
    → takes_key (choose draw store strategy bs).strategy ≡ takes_key strategy
unfolding choose reserve
choose-takes_key draw store strategy [] = refl
choose-takes_key draw store strategy (b ∷ bs) =
    by_choice (Strategy.select_backend draw store (b ∷ bs) strategy)
      (select-takes_key draw store (b ∷ bs) strategy)
  where
    by_choice :
        (c : Strategy × Option ℕ)
        → takes_key c.0 ≡ takes_key strategy
        → takes_key (reserve store c).strategy ≡ takes_key strategy
    by_choice (next, none) e = e
    by_choice (next, some p) e = e

-- Reserving keeps the kind of the strategy.
pub get_and_reserve_server-takes_key :
    (draw : ℕ) (bs : List ℕ) (strategy : Strategy) (store : Store)
    → takes_key (get_and_reserve_server draw bs strategy store).strategy ≡ takes_key strategy
unfolding get_and_reserve_server
get_and_reserve_server-takes_key draw bs strategy store =
    choose-takes_key draw store strategy (filter_healthy store bs)

choose-ok :
    (draw : ℕ) (store : Store) (strategy : Strategy) (bs : List ℕ) (b : ℕ)
    → (choose draw store strategy bs).result ≡ ok b
    → (choose draw store strategy bs).store ≡ modify b increment_conn store
unfolding choose
choose-ok draw store strategy [] b e = cc
choose-ok draw store strategy (c ∷ cs) b e =
    by_choice (select_backend draw store (c ∷ cs) strategy) e
  where
    by_choice :
        (d : Strategy × Option ℕ)
        → (reserve store d).result ≡ ok b
        → (reserve store d).store ≡ modify b increment_conn store
    by_choice (next, none) e = cc
    by_choice (next, some p) e = let same : p ≡ b = cc in rw same refl

-- Whatever the strategy, the backend answered is the one whose connection is counted.
pub get_and_reserve_server-ok :
    (draw : ℕ) (bs : List ℕ) (key : String) (strategy : Strategy) (store : Store) (b : ℕ)
    → ((get_and_reserve_server draw bs strategy store).result ≡ ok b
        → (get_and_reserve_server draw bs strategy store).store ≡ modify b increment_conn store)
      × ((get_and_reserve_server_with_key draw bs key strategy store).result ≡ ok b
          → (get_and_reserve_server_with_key draw bs key strategy store).store
            ≡ modify b increment_conn store)
unfolding get_and_reserve_server get_and_reserve_server_with_key
get_and_reserve_server-ok draw bs key strategy store b = (
  choose-ok draw store strategy (filter_healthy store bs) b,
  choose-ok draw store _ (filter_healthy store bs) b,
)
