-- ===== src/Registry/View.antt =====
-- The registry of internal/circuitbreaker/registry.go as a function from addresses to breakers.
use go_loadbalancer.Prelude.{
  ℕ, ◌≡◌, ◌≢◌, refl, ap, ◌∙◌, inl, inr, arith, Option, none, some, String, Bool-cases, Option-cases,
  false, if◌then◌else◌,
}
use go_loadbalancer.Prelude.Map.{lookup, lookup-insert, ◌==◌, nat_key, string_key, beq_refl}
use go_loadbalancer.Breaker.{Breaker}
use go_loadbalancer.Breaker
use go_loadbalancer.Registry.{Registry, get_breaker, write, write_locked, read_locked, allocate}
use go_loadbalancer.Registry.Laws.{
  IsValid, write-IsValid, get_breaker_lem, get_breaker-eq-write_locked,
}

-- The breaker of an address; one that is not there yet would be new.
abbrev pub at_pointer : Registry → Option ℕ → Breaker
at_pointer r none = Breaker.new r.threshold r.timeout
at_pointer r (some p) = r.heap p

unfoldable pub breaker_of : String → Registry → Breaker
breaker_of url r = at_pointer r (lookup url r.breakers)

-- A method of the breaker of an address that changes it to `b`.
abbrev pub touch : String → (Breaker → Breaker) → Registry → Registry
touch url f r = let (found, p) = get_breaker url r in write p (f (found.heap p)) found

get_breaker-settings :
    (url : String) (r : Registry)
    → ((get_breaker url r).0.threshold ≡ r.threshold) × ((get_breaker url r).0.timeout ≡ r.timeout)
unfolding get_breaker read_locked write_locked allocate write
get_breaker-settings url r = ground arith

allocate-breaker_of :
    (url other : String) (r : Registry)
    → IsValid r
    → lookup url r.breakers ≡ none
    → breaker_of other (allocate url r) ≡ breaker_of other r
unfolding breaker_of allocate write
allocate-breaker_of url other r valid miss = elim (Option-cases (lookup other r.breakers)) [
  | inl e ↦
      rw (lookup-insert url other r.fresh r.breakers, e)
        (elim (Bool-cases (url == other)) [
          | inl same ↦ rw (same, beq_refl r.fresh) refl
          | inr apart ↦ rw apart refl
        ])
  | inr (q, e) ↦
      rw (lookup-insert url other r.fresh r.breakers, e)
        (elim (Bool-cases (url == other)) [
          | inl same ↦ ground (arith, string_key.beq_iff url other, miss, e)
          | inr apart ↦ rw apart (ground (arith, valid.allocated other q e))
        ])
]

-- Asking for a breaker changes the breaker of no address.
get_breaker-breaker_of :
    (url other : String) (r : Registry)
    → IsValid r
    → breaker_of other (get_breaker url r).0 ≡ breaker_of other r
unfolding write_locked
get_breaker-breaker_of url other r valid =
    rw (get_breaker-eq-write_locked url r) (elim (Option-cases (lookup url r.breakers)) [
      | inl miss ↦ rw (miss, write_locked) (allocate-breaker_of url other r valid miss)
      | inr (p, hit) ↦ rw (hit, write_locked) refl
    ])

-- The pointer that is answered is the one of the address.
pub get_breaker-at :
    (url : String) (r : Registry)
    → IsValid r
    → ((get_breaker url r).0.heap (get_breaker url r).1) ≡ breaker_of url r
unfolding breaker_of
get_breaker-at url r valid =
    let (_, found, _, _, _) = get_breaker_lem url r valid in
    reads url (get_breaker url r).0 (get_breaker url r).1 found
    ∙ get_breaker-breaker_of url url r valid
  where
    reads :
        (url : String) (r' : Registry) (p : ℕ)
        → lookup url r'.breakers ≡ some p
        → r'.heap p ≡ breaker_of url r'
    reads url r' p e = rw e refl

write-breaker_of :
    (url other : String) (p : ℕ) (b : Breaker) (r : Registry)
    → IsValid r
    → lookup url r.breakers ≡ some p
    → breaker_of other (write p b r) ≡ (if url == other then b else breaker_of other r)
unfolding breaker_of write
write-breaker_of url other p b r valid at = elim (Option-cases (lookup other r.breakers)) [
  | inl e ↦ rw e (ground (arith, string_key.beq_iff url other, at, e))
  | inr (q, e) ↦
      rw e (ground (arith, string_key.beq_iff url other, at, e, valid.apart url other p at))
]

-- A method on the breaker of an address changes that breaker, and no other address's.
pub touch_lem :
    (url : String) (f : Breaker → Breaker) (r : Registry)
    → IsValid r
    → IsValid (touch url f r)
      × (breaker_of url (touch url f r) ≡ f (breaker_of url r))
      × ((other : String) → other ≢ url → breaker_of other (touch url f r) ≡ breaker_of other r)
touch_lem url f r valid =
    let (kept, found, _, _, _) = get_breaker_lem url r valid in
    let (r', p) = get_breaker url r in
    (
      write-IsValid p (f (r'.heap p)) r' kept,
      write-breaker_of url url p (f (r'.heap p)) r' kept found
          ∙ rw (beq_refl url) (ap f (get_breaker-at url r valid)),
      λ other ne.
          write-breaker_of url other p (f (r'.heap p)) r' kept found
          ∙ rw (elsewhere other ne) (get_breaker-breaker_of url other r valid),
    )
  where
    elsewhere : (other : String) → other ≢ url → (url == other) ≡ false
    elsewhere other ne = ground (arith, string_key.beq_iff url other)
