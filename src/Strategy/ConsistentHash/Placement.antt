-- ===== src/Strategy/ConsistentHash/Placement.antt =====
-- What the ring of internal/strategy/consistent_hash.go is built from.
use go_loadbalancer.Prelude.{
  ℕ, zero, suc, ◌+◌, ◌*◌, ◌<◌, ◌≤◌, ◌≡◌, refl, ap, sym, inl, inr, arith, List, [], ◌∷◌, ◌++◌, some,
  In, All, length, length-append, Bool-cases,
}
use go_loadbalancer.Prelude.Int.{ℤ, pos_part}
use go_loadbalancer.Prelude.Map.{Map, lookup, insert, lookup-insert, ◌==◌, nat_key}
use go_loadbalancer.Go.Sort.{nat_order, Ascending, sort-Ascending, All-sort, length-sort, In-sort}
use go_loadbalancer.Backend.{Store}
use go_loadbalancer.Strategy.ConsistentHash.{
  Ring, position, place, place_all, empty_ring, build_ring,
}

-- Position `p` has an owner, a backend of the list that has one of its `vnodes` virtual nodes there.
abbrev pub Owned : Store → List ℕ → ℕ → Map ℕ ℕ → ℕ → Type 0
Owned store bs vnodes owners p =
    (b : ℕ) × (i : ℕ) × (lookup p owners ≡ some b)
    × In b bs
    × (i < vnodes)
    × (p ≡ position store b i)

All-map :
    {A : Type 0} (P Q : A → Type 0) (xs : List A) → ((x : A) → P x → Q x) → All P xs → All Q xs
All-map P Q [] f h = tt
All-map P Q (x ∷ xs) f h = (f x h.0, All-map P Q xs f h.1)

All-append : {A : Type 0} (P : A → Type 0) (xs ys : List A) → All P xs → All P ys → All P (xs ++ ys)
All-append P [] ys h k = k
All-append P (x ∷ xs) ys h k = (h.0, All-append P xs ys h.1 k)

Owned-insert :
    (store : Store) (bs : List ℕ) (vnodes : ℕ) (owners : Map ℕ ℕ) (b i p : ℕ)
    → In b bs
    → i < vnodes
    → Owned store bs vnodes owners p
    → Owned store bs vnodes (insert (position store b i) b owners) p
Owned-insert store bs vnodes owners b i p here below (c, j, found, there, lt, e) =
    elim (Bool-cases (position store b i == p)) [
      | inl same ↦ (
        b,
        i,
        rw (lookup-insert (position store b i) p b owners) (rw same refl),
        here,
        below,
        sym ((nat_key.beq_iff (position store b i) p).0 same),
      )
      | inr other ↦
          (c, j, rw (lookup-insert (position store b i) p b owners) (rw other found), there, lt, e)
    ]

In-append-left : (p : ℕ) (xs ys : List ℕ) → In p xs → In p (xs ++ ys)
In-append-left p [] ys i = elim i [ ]
In-append-left p (x ∷ xs) ys (inl e) = inl e
In-append-left p (x ∷ xs) ys (inr i) = inr (In-append-left p xs ys i)

In-append-last : (p x : ℕ) (xs : List ℕ) → p ≡ x → In p (xs ++ (x ∷ []))
In-append-last p x [] e = inl e
In-append-last p x (y ∷ xs) e = inr (In-append-last p x xs e)

record Placed (store : Store) (bs : List ℕ) (vnodes : ℕ) (ring : Ring) : Type 0 where
  owned : All (Owned store bs vnodes ring.owners) ring.positions

place-Placed :
    (store : Store) (bs : List ℕ) (vnodes b i rounds : ℕ) (ring : Ring)
    → In b bs
    → i + rounds ≤ vnodes
    → Placed store bs vnodes ring
    → Placed store bs vnodes (place store b i rounds ring)
unfolding place
place-Placed store bs vnodes b i zero ring here fits h = h
place-Placed store bs vnodes b i (suc rounds) ring here fits h =
    place-Placed store bs vnodes b (suc i) rounds _ here (omega (arith, fits)) (record {
      owned =
          All-append _ ring.positions (position store b i ∷ [])
            (All-map _ _ ring.positions
              (λ p o. Owned-insert store bs vnodes ring.owners b i p here (omega (arith, fits)) o)
              h.owned)
            (
              (
                b,
                i,
                rw (lookup-insert (position store b i) (position store b i) b ring.owners)
                    (ground (arith, nat_key.beq_iff (position store b i) (position store b i))),
                here,
                omega (arith, fits),
                refl,
              ),
              tt,
            );
    })

place_all-Placed :
    (store : Store) (all : List ℕ) (vnodes : ℕ) (bs : List ℕ) (ring : Ring)
    → ((b : ℕ) → In b bs → In b all)
    → Placed store all vnodes ring
    → Placed store all vnodes (place_all store vnodes bs ring)
unfolding place_all
place_all-Placed store all vnodes [] ring sub h = h
place_all-Placed store all vnodes (b ∷ bs) ring sub h =
    place_all-Placed store all vnodes bs _ (λ q i. sub q (inr i))
      (place-Placed store all vnodes b 0 vnodes ring (sub b (inl refl)) (omega arith) h)

length-place :
    (store : Store) (b i rounds : ℕ) (ring : Ring)
    → length (place store b i rounds ring).positions ≡ length ring.positions + rounds
unfolding place
length-place store b i zero ring = omega arith
length-place store b i (suc rounds) ring = omega (
  arith,
  length-place store b (suc i) rounds _,
  length-append ring.positions (position store b i ∷ []),
)

length-place_all :
    (store : Store) (vnodes : ℕ) (bs : List ℕ) (ring : Ring)
    → length (place_all store vnodes bs ring).positions ≡ length ring.positions + length bs * vnodes
unfolding place_all
length-place_all store vnodes [] ring = omega arith
length-place_all store vnodes (b ∷ bs) ring = omega (
  arith,
  length-place_all store vnodes bs (place store b 0 vnodes ring),
  length-place store b 0 vnodes ring,
)

-- Every virtual node of every backend has its position.
place-keeps :
    (store : Store) (b i rounds : ℕ) (ring : Ring) (p : ℕ)
    → In p ring.positions
    → In p (place store b i rounds ring).positions
unfolding place
place-keeps store b i zero ring p here = here
place-keeps store b i (suc rounds) ring p here =
    place-keeps store b (suc i) rounds _ p (In-append-left p ring.positions _ here)

place-covers :
    (store : Store) (b i rounds : ℕ) (ring : Ring) (j : ℕ)
    → i ≤ j
    → j < i + rounds
    → In (position store b j) (place store b i rounds ring).positions
unfolding place
place-covers store b i zero ring j from to = absurd (omega (arith, from, to))
place-covers store b i (suc rounds) ring j from to = elim (Bool-cases (i == j)) [
  | inl first ↦ place-keeps store b (suc i) rounds _ (position store b j) (
      In-append-last (position store b j) (position store b i) ring.positions
        (ap (position store b) (sym ((nat_key.beq_iff i j).0 first))))
  | inr later ↦
      place-covers store b (suc i) rounds _ j (ground (arith, from, later)) (omega (arith, to))
]

place_all-keeps :
    (store : Store) (vnodes : ℕ) (bs : List ℕ) (ring : Ring) (p : ℕ)
    → In p ring.positions
    → In p (place_all store vnodes bs ring).positions
unfolding place_all
place_all-keeps store vnodes [] ring p here = here
place_all-keeps store vnodes (b ∷ bs) ring p here =
    place_all-keeps store vnodes bs _ p (place-keeps store b 0 vnodes ring p here)

place_all-covers :
    (store : Store) (vnodes : ℕ) (bs : List ℕ) (ring : Ring) (b j : ℕ)
    → In b bs
    → j < vnodes
    → In (position store b j) (place_all store vnodes bs ring).positions
unfolding place_all
place_all-covers store vnodes [] ring b j here lt = elim here [ ]
place_all-covers store vnodes (c ∷ bs) ring b j (inl e) lt =
    place_all-keeps store vnodes bs _ (position store b j)
      (rw e (place-covers store c 0 vnodes ring j (omega arith) (omega (arith, lt))))
place_all-covers store vnodes (c ∷ bs) ring b j (inr here) lt =
    place_all-covers store vnodes bs _ b j here lt

pub build_ring-covers :
    (store : Store) (bs : List ℕ) (vnodes : ℤ) (b j : ℕ)
    → In b bs
    → j < pos_part vnodes
    → In (position store b j) (build_ring store bs vnodes).positions
unfolding build_ring
build_ring-covers store bs vnodes b j here lt =
    In-sort nat_order (position store b j)
      (place_all store (pos_part vnodes) bs empty_ring).positions
      (place_all-covers store (pos_part vnodes) bs empty_ring b j here lt)

-- A ring has one position for each virtual node, in ascending order, and each has an owner among
-- the backends that it was built from.
pub build_ring-Owned :
    (store : Store) (bs : List ℕ) (vnodes : ℤ)
    → let ring = build_ring store bs vnodes in
      Ascending nat_order ring.positions
      × (length ring.positions ≡ length bs * pos_part vnodes)
      × All (Owned store bs (pos_part vnodes) ring.owners) ring.positions
unfolding build_ring
build_ring-Owned store bs vnodes =
    let ring = place_all store (pos_part vnodes) bs empty_ring in
    (
      sort-Ascending nat_order ring.positions,
      omega (
        arith,
        length-sort nat_order ring.positions,
        length-place_all store (pos_part vnodes) bs empty_ring,
      ),
      All-sort nat_order _ ring.positions
          (place_all-Placed store bs (pos_part vnodes) bs empty_ring (λ b i. i)
            (record { owned = tt })).owned,
    )
