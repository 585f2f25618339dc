-- ===== src/Strategy/ConsistentHash/Successor.antt =====
-- Which position of the ring `lookup` of internal/strategy/consistent_hash.go finds.
use go_loadbalancer.Prelude.{
  ℕ, suc, ◌≤◌, ◌<◌, ◌≡◌, refl, ◌⊎◌, inl, inr, arith, true, List, [], ◌∷◌, In, All, length, get_or,
  leb, leb→le, ltb, ltb→lt, ltb-false, Bool-cases,
}
use go_loadbalancer.Prelude.Map.{lookup, ◌==◌, nat_key}
use go_loadbalancer.Go.Sort.{Ascending, nat_order, get_or-In, get_or-mono}
use go_loadbalancer.Go.Search.{search, search-splits}
use go_loadbalancer.Strategy.ConsistentHash.{Ring, index_of, lookup_at, lookup_hash}

All-get_or :
    (P : ℕ → Type 0) (xs : List ℕ) (d : ℕ)
    → ((i : ℕ) → i < length xs → P (get_or xs i d))
    → All P xs
All-get_or P [] d h = tt
All-get_or P (x ∷ xs) d h = (h 0 (omega arith), All-get_or P xs d (λ i l. h (suc i) (omega arith)))

-- `p` is the first position at or after the hash, going round from the last to the first.
abbrev pub IsSuccessor : List ℕ → ℕ → ℕ → Type 0
IsSuccessor positions hash p =
    In p positions
    × (((hash ≤ p) × All (λ q. hash ≤ q → p ≤ q) positions)
        ⊎ (All (λ q. q < hash) positions × All (λ q. p ≤ q) positions))

index_of-IsSuccessor :
    (positions : List ℕ) (hash : ℕ)
    → Ascending nat_order positions
    → 0 < length positions
    → IsSuccessor positions hash (get_or positions (index_of positions hash) 0)
unfolding index_of
index_of-IsSuccessor ps hash asc some_position =
    let test = λ (i : ℕ). leb hash (get_or ps i 0) in
    let mono : (k l : ℕ) → k ≤ l → l < length ps → test k ≡ true → test l ≡ true =
      λ k l le lt e. ground (arith, get_or-mono nat_order ps k l 0 asc le lt) in
    let (within, fails, passes) = search-splits (length ps) test mono in
    elim (Bool-cases (search (length ps) test == length ps)) [
      | inl end ↦
          let none_left : search (length ps) test ≡ length ps = ground arith in
          rw end (
            get_or-In ps 0 0 some_position,
            inr (
              All-get_or (λ q. q < hash) ps 0 (λ i lt. ground (arith, fails i (omega arith))),
              All-get_or (λ q. get_or ps 0 0 ≤ q) ps 0
                  (λ i lt. get_or-mono nat_order ps 0 i 0 asc (omega arith) lt),
            ),
          )
      | inr hit ↦
          let i : ℕ = search (length ps) test in
          let lt : i < length ps = ground arith in
          rw hit (
            get_or-In ps i 0 lt,
            inl (
              leb→le hash (get_or ps i 0) (passes i (omega arith) lt),
              All-get_or (λ q. hash ≤ q → get_or ps i 0 ≤ q) ps 0
                  (λ k l h. elim (Bool-cases (ltb k i)) [
                    | inl before ↦ ground (arith, fails k (ltb→lt k i before))
                    | inr behind ↦ get_or-mono nat_order ps i k 0 asc (ltb-false k i behind) l
                  ]),
            ),
          )
    ]

-- On a ring with ascending positions, at least one, the look-up of a hash gives the owner of the
-- first position at or after it, or, when the hash lies past the last one, of the first of all.
pub lookup_hash-IsSuccessor :
    (ring : Ring) (hash : ℕ)
    → Ascending nat_order ring.positions
    → 0 < length ring.positions
    → (p : ℕ) × IsSuccessor ring.positions hash p × (lookup_hash ring hash ≡ lookup p ring.owners)
unfolding lookup_hash
lookup_hash-IsSuccessor ring hash asc h = at ring.positions asc h
  where
    at :
        (ps : List ℕ)
        → Ascending nat_order ps
        → 0 < length ps
        → (p : ℕ) × IsSuccessor ps hash p × (lookup_at ring hash ps ≡ lookup p ring.owners)
    at [] asc' h' = absurd (omega arith)
    at (q ∷ qs) asc' h' = (
      get_or (q ∷ qs) (index_of (q ∷ qs) hash) 0,
      index_of-IsSuccessor (q ∷ qs) hash asc' h',
      refl,
    )
