-- ===== src/Program/Pointers.antt =====
-- The backends in memory, for a configuration that `Validate` accepts (cmd/main.go).
use go_loadbalancer.Prelude.{
  ℕ, zero, suc, ◌+◌, ◌<◌, ◌≤◌, ◌≡◌, refl, ap, ◌⊎◌, ◌↔◌, inl, inr, arith, List, [], ◌∷◌, some, In,
  All, length, get_elem?, get_or,
}
use go_loadbalancer.Go.Net.{Url}
use go_loadbalancer.Backend.{Backend}
use go_loadbalancer.Backend
use go_loadbalancer.Config.{BackendConfig, Parsers}
use go_loadbalancer.Config.Checks.{Usable}
use go_loadbalancer.Startup.{collect}
use go_loadbalancer.Program.{address_of, pointers_from}

-- The backend of an entry.
abbrev pub MadeFrom : Parsers → BackendConfig → Backend → Type 0
MadeFrom p b c = (u : Url) × (p.parse_url b.url ≡ some u) × (c ≡ Backend.new u.text b.weight)

collect-Usable :
    (p : Parsers) (b : BackendConfig) (bs : List BackendConfig)
    → Usable p.parse_url b
    → (c : Backend) × MadeFrom p b c
      × (collect (address_of p) (b ∷ bs) ≡ c ∷ collect (address_of p) bs)
unfolding collect
collect-Usable p b bs usable =
    let (_, u, found, _, _) = usable.0 in
    (Backend.new u.text b.weight, (u, found, refl), rw (collect, found) refl)

pub collect-at :
    (p : Parsers) (bs : List BackendConfig) (d : Backend)
    → All (Usable p.parse_url) bs
    → (length (collect (address_of p) bs) ≡ length bs)
      × ((i : ℕ) (b : BackendConfig)
          → get_elem? bs i ≡ some b
          → MadeFrom p b (get_or (collect (address_of p) bs) i d))
unfolding collect
collect-at p [] d all = (refl, λ i b e. cc)
collect-at p (x ∷ xs) d all =
    let (c, made, e) = collect-Usable p x xs all.0 in
    let (len, rest) = collect-at p xs d all.1 in
    rw e (ap suc len, λ i b f. at c made (collect (address_of p) xs) (λ j g. rest j b g) i f)
  where
    at :
        {b : BackendConfig} (c : Backend)
        → MadeFrom p x c
        → (cs : List Backend) → ((j : ℕ) → get_elem? xs j ≡ some b → MadeFrom p b (get_or cs j d))
        → (i : ℕ) → get_elem? (x ∷ xs) i ≡ some b
        → MadeFrom p b (get_or (c ∷ cs) i d)
    at {b = b} c made cs rest zero f = let same : x ≡ b = cc in rw (← same) made
    at {b = b} c made cs rest (suc i) f = rest i f

-- The pointers are the positions.
pub pointers_from-In :
    (bs : List Backend) (k i : ℕ) → In i (pointers_from k bs) ↔ ((k ≤ i) × (i < k + length bs))
pointers_from-In [] k i = ((λ h. elim h [ ]), (λ h. omega (arith, h.0, h.1)))
pointers_from-In (b ∷ bs) k i =
    let (there, back) = pointers_from-In bs (suc k) i in
    (
      (λ h. elim h [
        | inl e ↦ (omega (arith, e), omega (arith, e))
        | inr j ↦ let (lo, hi) = there j in (omega (arith, lo), omega (arith, hi))
      ]),
      (λ h. elim (nat_cases k i h.0) [
        | inl e ↦ inl e
        | inr lt ↦ inr (back (lt, omega (arith, h.1)))
      ]),
    )
  where
    nat_cases : (k i : ℕ) → k ≤ i → (i ≡ k) ⊎ (suc k ≤ i)
    nat_cases k i h = ground arith

pub length-pointers_from : (bs : List Backend) (k : ℕ) → length (pointers_from k bs) ≡ length bs
length-pointers_from [] k = refl
length-pointers_from (b ∷ bs) k = ap suc (length-pointers_from bs (suc k))
