-- ===== src/Registry/Laws.antt =====
-- What a goroutine that runs alone sees of internal/circuitbreaker/registry.go.
use mathlib.Core.Option
use go_loadbalancer.Prelude.{
  ℕ, sym, ap, ◌∙◌, ◌<◌, ◌≡◌, refl, ◌≢◌, ◌⊎◌, arith, [], ◌∷◌, none, some, String, inl, inr,
  Option-cases, if◌then◌else◌,
}
use go_loadbalancer.Prelude.Map.{Map, lookup, lookup-insert, ◌==◌, string_key, nat_key, beq_refl}
use go_loadbalancer.Breaker.{Breaker, State}
use go_loadbalancer.Breaker
use go_loadbalancer.Prelude.Int.{ℤ}
use go_loadbalancer.Registry.{
  Registry, new, write, allocate, write_locked, get_breaker, reset, stats_of, stats,
}

-- The pointers in the map are allocated, and two addresses never share a breaker.
pub record IsValid (r : Registry) : Type 0 where
  pub allocated : (url : String) (p : ℕ) → lookup url r.breakers ≡ some p → p < r.fresh
  pub apart :
      (url other : String) (p : ℕ)
      → lookup url r.breakers ≡ some p
      → lookup other r.breakers ≡ some p
      → url ≡ other

allocate-IsValid :
    (url : String) (r : Registry)
    → lookup url r.breakers ≡ none
    → IsValid r
    → IsValid (allocate url r)
unfolding allocate write
allocate-IsValid url r miss v = record {
  allocated = λ u p h. ground (arith, lookup-insert url u r.fresh r.breakers, v.allocated u p);
  apart = λ u o p h k. ground (
    arith,
    lookup-insert url u r.fresh r.breakers,
    lookup-insert url o r.fresh r.breakers,
    string_key.beq_iff url u,
    string_key.beq_iff url o,
    v.apart u o p,
    v.allocated u p,
    v.allocated o p,
  );
}

pub write-IsValid : (p : ℕ) (b : Breaker) (r : Registry) → IsValid r → IsValid (write p b r)
unfolding write
write-IsValid p b r v = record { allocated = v.allocated; apart = v.apart }

pub write_locked-IsValid :
    (url : String) (r : Registry) → IsValid r → IsValid (write_locked url r).0
unfolding write_locked
write_locked-IsValid url r v = elim (Option-cases (lookup url r.breakers)) [
  | inl miss ↦ rw (miss, write_locked) (allocate-IsValid url r miss v)
  | inr (p, hit) ↦ rw (hit, write_locked) v
]

pub write_locked-lookup :
    (url other : String) (r : Registry)
    → lookup other (write_locked url r).0.breakers
      ≡ (if url == other then some (write_locked url r).1 else lookup other r.breakers)
unfolding write_locked allocate
write_locked-lookup url other r =
    ground (arith, lookup-insert url other r.fresh r.breakers, string_key.beq_iff url other)

stats_of-lookup :
    (heap : ℕ → Breaker) (m : Map String ℕ) (url : String)
    → lookup url (stats_of heap m) ≡ Option.map (λ p. (heap p).state) (lookup url m)
unfolding stats_of lookup
stats_of-lookup heap [] url = refl
stats_of-lookup heap ((j, p) ∷ m) url = ground (arith, stats_of-lookup heap m url)

pub get_breaker-eq-write_locked :
    (url : String) (r : Registry) → get_breaker url r ≡ write_locked url r
unfolding get_breaker
get_breaker-eq-write_locked url r = ground arith

-- `GetBreaker` answers with the breaker that the map now holds for the address. A breaker that was
-- there stays; otherwise it is a new one, closed, with the registry's settings. The entries of the
-- other addresses and every breaker already allocated are unchanged.
pub get_breaker_lem :
    (url : String) (r : Registry)
    → IsValid r
    → let (r', p) = get_breaker url r in
      IsValid r'
      × (lookup url r'.breakers ≡ some p)
      × ((lookup url r.breakers ≡ some p)
          ⊎ ((lookup url r.breakers ≡ none) × (r'.heap p ≡ Breaker.new r.threshold r.timeout)))
      × ((other : String) → other ≢ url → lookup other r'.breakers ≡ lookup other r.breakers)
      × ((q : ℕ) → q < r.fresh → r'.heap q ≡ r.heap q)
unfolding get_breaker allocate
get_breaker_lem url r v = elim (Option-cases (lookup url r.breakers)) [
  | inl miss ↦
      rw (get_breaker-eq-write_locked, miss, write_locked)
        (
          allocate-IsValid url r miss v,
          ground (arith, lookup-insert url url r.fresh r.breakers, beq_refl url),
          inr (refl, ground arith),
          λ o ne. ground (arith, lookup-insert url o r.fresh r.breakers, string_key.beq_iff url o),
          λ q lt. ground arith,
        )
  | inr (p, hit) ↦ rw (hit, get_breaker) (v, hit, inl refl, λ o ne. refl, λ q lt. refl)
]

other_apart :
    (url other : String) (r : Registry)
    → IsValid r
    → other ≢ url
    → (get_breaker other (get_breaker url r).0).1 ≢ (get_breaker url r).1
other_apart url other r v ne same =
    let a = get_breaker_lem url r v in
    let b = get_breaker_lem other (get_breaker url r).0 a.0 in
    ne (
      b.0.apart other url (get_breaker url r).1 (b.1 ∙ ap some same)
        (b.3 url (λ e. ne (sym e)) ∙ a.1))

-- Asking again for the same address changes nothing and gives the same breaker; asking for another
-- one gives another breaker.
pub get_breaker_again :
    (url other : String) (r : Registry)
    → IsValid r
    → let (r', p) = get_breaker url r in
      (get_breaker url r' ≡ (r', p)) × (other ≢ url → (get_breaker other r').1 ≢ p)
unfolding get_breaker
get_breaker_again url other r v =
    let held = (get_breaker_lem url r v).1 in
    (rw (held, get_breaker) refl, other_apart url other r v)

-- `Stats` reports, for every address, the state of its breaker, and nothing for an address that has
-- none; after `Reset` it reports nothing, and a registry that satisfied the invariant still does.
pub stats_lem :
    (url : String) (r : Registry)
    → (lookup url (stats r) ≡ Option.map (λ p. (r.heap p).state) (lookup url r.breakers))
      × (stats (reset r) ≡ [])
      × IsValid (reset r)
unfolding stats reset stats_of lookup
stats_lem url r = (
  stats_of-lookup r.heap r.breakers url,
  refl,
  record { allocated = λ u p h. cc; apart = λ u o p h k. cc },
)

pub new-IsValid : (threshold timeout : ℤ) → IsValid (new threshold timeout)
unfolding new lookup
new-IsValid threshold timeout = record { allocated = λ u p h. cc; apart = λ u o p h k. cc }
