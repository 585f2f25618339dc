-- ===== src/Strategy/Choice.antt =====
-- Which backends the strategies of internal/strategy can choose.
use go_loadbalancer.Prelude.{ℕ, ◌≡◌, inl, inr, false, List, [], ◌∷◌, Option, some, In, get_elem?-In}
use go_loadbalancer.Backend.{Store}
use go_loadbalancer.Strategy.{
  Strategy, round_robin, random, least_conn, least_response, weighted, consistent_hash,
  select_backend, takes_key,
}
use go_loadbalancer.Strategy.RoundRobin.Cycle
use go_loadbalancer.Strategy.Random
use go_loadbalancer.Strategy.LeastConn
use go_loadbalancer.Strategy.LeastConn.Least as Fewest
use go_loadbalancer.Strategy.LeastResponse
use go_loadbalancer.Strategy.LeastResponse.Least as Quickest
use go_loadbalancer.Strategy.LeastResponse.Least.{IsFirstUnsampled}
use go_loadbalancer.Strategy.Weighted.Member
use go_loadbalancer.Strategy.Minimum.{IsFirstLeast-In}

random-In : (draw : ℕ) (bs : List ℕ) {p : ℕ} → Random.select_backend draw bs ≡ some p → In p bs
unfolding Random.select_backend
random-In draw [] e = cc
random-In draw (b ∷ bs) e = get_elem?-In (b ∷ bs) draw e

-- Two equal options hold the same value.
moved : {A : Type 0} {o : Option A} (P : A → Type 0) (p q : A) → o ≡ some p → o ≡ some q → P p → P q
moved P p q e f h = let same : p ≡ q = cc in rw (← same) h

least_conn-In :
    (store : Store) (bs : List ℕ) {p : ℕ} → LeastConn.select_backend store bs ≡ some p → In p bs
least_conn-In store bs {p} e = elim (Fewest.fewest_connections store bs) [
  | inl (nothing, _) ↦ cc
  | inr (q, found, _, least) ↦
      moved (λ x. In x bs) q p found e (IsFirstLeast-In (Fewest.conns store) q bs least)
]

IsFirstUnsampled-In : (store : Store) (p : ℕ) (bs : List ℕ) → IsFirstUnsampled store p bs → In p bs
IsFirstUnsampled-In store p [] h = elim h [ ]
IsFirstUnsampled-In store p (b ∷ bs) (inl h) = inl h.0
IsFirstUnsampled-In store p (b ∷ bs) (inr h) = inr (IsFirstUnsampled-In store p bs h.1)

least_response-In :
    (store : Store) (bs : List ℕ) {p : ℕ} → LeastResponse.select_backend store bs ≡ some p → In p bs
least_response-In store bs {p} e = elim (Quickest.quickest_response store bs) [
  | inl (_, nothing) ↦ cc
  | inr (inl (q, found, first)) ↦
      moved (λ x. In x bs) q p found e (IsFirstUnsampled-In store q bs first)
  | inr (inr (q, found, _, least)) ↦
      moved (λ x. In x bs) q p found e (IsFirstLeast-In (Quickest.score_of store) q bs least)
]

-- Every strategy but consistent hashing chooses, if it chooses, one of the backends offered.
pub select_backend-In :
    (draw : ℕ) (store : Store) (bs : List ℕ) (s : Strategy) {p : ℕ}
    → takes_key s ≡ false
    → (select_backend draw store bs s).1 ≡ some p
    → In p bs
unfolding select_backend takes_key
select_backend-In draw store bs (round_robin current) h e = Cycle.at_turn-In current bs e
select_backend-In draw store bs random h e = random-In draw bs e
select_backend-In draw store bs least_conn h e = least_conn-In store bs e
select_backend-In draw store bs least_response h e = least_response-In store bs e
select_backend-In draw store bs (weighted m) h e = Member.winner-In store bs m e
select_backend-In draw store bs (consistent_hash s) h e = cc
