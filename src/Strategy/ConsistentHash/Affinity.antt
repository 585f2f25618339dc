-- ===== src/Strategy/ConsistentHash/Affinity.antt =====
-- When a client keeps its backend in internal/strategy/consistent_hash.go.
use go_loadbalancer.Prelude.{
  ℕ, zero, suc, ◌*◌, ◌<◌, ◌≤◌, ◌⊎◌, inl, inr, ◌≡◌, refl, sym, ap, subst, ◌∙◌, arith, false, List,
  [], ◌∷◌, Option, some, get_elem?, In, String, length, All-In, if◌then◌else◌,
}
use go_loadbalancer.Prelude.Int.{ℤ, pos, ◌<ℤ◌, pos_part, leb_ℤ}
use go_loadbalancer.Prelude.Map.{nat_key}
use go_loadbalancer.Go.Crc.{bytes, checksum_ieee}
use go_loadbalancer.Backend.{Store}
use go_loadbalancer.Strategy.ConsistentHash.{
  ConsistentHashStrategy, position, build_ring, lookup_hash, new, set_key, is_empty, select_backend,
}
use go_loadbalancer.Strategy.ConsistentHash.Successor.{lookup_hash-IsSuccessor}
use go_loadbalancer.Strategy.ConsistentHash.Placement.{build_ring-Owned, build_ring-covers}

product_pos : (n v : ℕ) → 0 < n → 0 < v → 0 < n * v
product_pos n v h k = grind arith

default_positive : (v : ℤ) → pos 0 <ℤ (if leb_ℤ v (pos 0) then pos 100 else v)
default_positive v = ground arith

is_empty-length : (ps : List ℕ) → 0 < length ps → is_empty ps ≡ false
unfolding is_empty
is_empty-length [] h = absurd (omega arith)
is_empty-length (p ∷ ps) h = refl

-- Virtual node `i` of backend `b`, one of those offered, is the first at or after the hash, going round
-- from the last to the first, among the `vnodes` virtual nodes of each backend that is offered.
pub record Nearest (store : Store) (bs : List ℕ) (vnodes hash b i : ℕ) : Type 0 where
  pub offered : In b bs
  pub node : i < vnodes
  pub nearest :
      ((hash ≤ position store b i)
        × ((c j : ℕ)
            → In c bs
            → j < vnodes
            → hash ≤ position store c j
            → position store b i ≤ position store c j))
      ⊎ (((c j : ℕ) → In c bs → j < vnodes → position store c j < hash)
          × ((c j : ℕ) → In c bs → j < vnodes → position store b i ≤ position store c j))

-- A look-up in a ring that was built from some backends gives the owner of the nearest virtual node.
build_ring-lookup :
    (store : Store) (bs : List ℕ) (vnodes : ℤ) (hash : ℕ)
    → 0 < length bs
    → pos 0 <ℤ vnodes
    → (b : ℕ) × (i : ℕ) × (lookup_hash (build_ring store bs vnodes) hash ≡ some b)
      × Nearest store bs (pos_part vnodes) hash b i
build_ring-lookup store bs vnodes hash some_backend some_node =
    let ring = build_ring store bs vnodes in
    let (asc, size, owned) = build_ring-Owned store bs vnodes in
    let (p, succ, found) =
      lookup_hash-IsSuccessor ring hash asc (
        omega
          (arith, size, product_pos (length bs) (pos_part vnodes) some_backend (omega arith))) in
    let (b, i, owner, here, below, e) = All-In _ ring.positions owned succ.0 in
    (
      b,
      i,
      found ∙ owner,
      record {
        offered = here;
        node = below;
        nearest = elim succ.1 [
          | inl (after_hash, least) ↦ inl (
            subst (λ q. hash ≤ q) e after_hash,
            λ c j there lt past.
                subst (λ q. q ≤ position store c j) e
                  (All-In _ ring.positions least (build_ring-covers store bs vnodes c j there lt)
                    past),
          )
          | inr (before, least) ↦ inr (
            (λ c j there lt.
                All-In _ ring.positions before (build_ring-covers store bs vnodes c j there lt)),
            λ c j there lt.
                subst (λ q. q ≤ position store c j) e
                  (All-In _ ring.positions least (build_ring-covers store bs vnodes c j there lt)),
          )
        ];
      },
    )

-- The virtual nodes of each backend, by the number in the configuration.
abbrev pub nodes_of : ℤ → ℤ
nodes_of virtual_nodes = if leb_ℤ virtual_nodes (pos 0) then pos 100 else virtual_nodes

-- The first selection with a client's key, over at least one backend, gives a backend that is offered
-- and has a virtual node at the first position at or after the checksum of the key, going round, among
-- all virtual nodes of all backends that are offered; a count of virtual nodes that is not positive
-- is taken as 100.
pub select_backend-Nearest :
    (store : Store) (bs : List ℕ) (virtual_nodes : ℤ) (key : String)
    → 0 < length bs
    → (b : ℕ) × (i : ℕ) × ((select_backend store bs (set_key key (new virtual_nodes))).1 ≡ some b)
      × Nearest store bs (pos_part (nodes_of virtual_nodes)) (checksum_ieee (bytes key)) b i
unfolding select_backend set_key new
select_backend-Nearest store bs virtual_nodes key some_backend =
    build_ring-lookup store bs _ _ some_backend (default_positive virtual_nodes)

-- While the ring has a position, a selection reads the ring and the key alone: which backends are
-- offered, and whatever has happened to them, makes no difference, and the strategy stays as it is.
pub select_backend_sticky :
    (store : Store) (bs : List ℕ) (s : ConsistentHashStrategy)
    → 0 < length s.ring.positions
    → select_backend store bs s ≡ (s, lookup_hash s.ring s.hash_key)
unfolding select_backend
select_backend_sticky store bs s h = rw (is_empty-length s.ring.positions h) refl

-- What a client's selection meets: the backends in memory, those that it is offered, and its key.
pub record Selection : Type 0 where
  pub store : Store
  pub offered : List ℕ
  pub key : String

-- The backends that selections one after the other give.
unfoldable pub answers : ConsistentHashStrategy → List Selection → List (Option ℕ)
answers s [] = []
answers s (x ∷ xs) =
    let (t, chosen) = select_backend x.store x.offered (set_key x.key s) in chosen ∷ answers t xs

answers-ring :
    (s : ConsistentHashStrategy) (xs : List Selection) (i : ℕ) (x : Selection)
    → 0 < length s.ring.positions
    → get_elem? xs i ≡ some x
    → get_elem? (answers s xs) i ≡ some (lookup_hash s.ring (checksum_ieee (bytes x.key)))
unfolding answers set_key
answers-ring s [] i x h found = cc
answers-ring s (y ∷ ys) zero x h found =
    rw (select_backend_sticky y.store y.offered (set_key y.key s) h) (
      let same : y ≡ x = cc in
      ap (λ z. some (lookup_hash s.ring (checksum_ieee (bytes z.key)))) same)
answers-ring s (y ∷ ys) (suc i) x h found =
    rw (select_backend_sticky y.store y.offered (set_key y.key s) h)
      (answers-ring (set_key y.key s) ys i x h found)

build_ring-nonempty :
    (store : Store) (bs : List ℕ) (virtual_nodes : ℤ)
    → 0 < length bs
    → 0 < length (build_ring store bs (nodes_of virtual_nodes)).positions
build_ring-nonempty store bs virtual_nodes some_backend =
    let (asc, size, owned) = build_ring-Owned store bs (nodes_of virtual_nodes) in
    let positive = default_positive virtual_nodes in
    omega (
      arith,
      size,
      product_pos (length bs) (pos_part (nodes_of virtual_nodes)) some_backend
          (omega (arith, positive)),
    )

-- From the first selection on, all read the ring that it has built.
answers-first :
    (virtual_nodes : ℤ) (first : Selection) (rest : List Selection) (i : ℕ) (x : Selection)
    → 0 < length first.offered
    → get_elem? (first ∷ rest) i ≡ some x
    → get_elem? (answers (new virtual_nodes) (first ∷ rest)) i
      ≡ some (
          lookup_hash
            (build_ring first.store first.offered (nodes_of virtual_nodes))
            (checksum_ieee (bytes x.key)))
unfolding answers select_backend set_key new
answers-first virtual_nodes first rest zero x some_backend found =
    let same : first ≡ x = cc in
    ap
      (λ z. some (
        lookup_hash (build_ring first.store first.offered (nodes_of virtual_nodes))
          (checksum_ieee (bytes z.key))))
      same
answers-first virtual_nodes first rest (suc i) x some_backend found =
    answers-ring
      (select_backend first.store first.offered (set_key first.key (new virtual_nodes))).0 rest i x
      (build_ring-nonempty first.store first.offered virtual_nodes some_backend) found

-- Of any selections one after the other on a new strategy, the first over at least one backend, any two
-- with the same key give the same backend, one of those that the first was offered, whatever the
-- others in between were, whichever backends these two are offered, and whatever has become of them.
pub select_backend_stale :
    (virtual_nodes : ℤ) (first : Selection) (rest : List Selection) (i j : ℕ) (x y : Selection)
    → 0 < length first.offered
    → get_elem? (first ∷ rest) i ≡ some x
    → get_elem? (first ∷ rest) j ≡ some y
    → x.key ≡ y.key
    → let chosen = answers (new virtual_nodes) (first ∷ rest) in
      (b : ℕ) × In b first.offered
      × (get_elem? chosen i ≡ some (some b))
      × (get_elem? chosen j ≡ some (some b))
select_backend_stale virtual_nodes first rest i j x y some_backend at_i at_j same =
    let (b, _, found, near) =
      build_ring-lookup first.store first.offered (nodes_of virtual_nodes)
        (checksum_ieee (bytes x.key)) some_backend (default_positive virtual_nodes) in
    let ring = build_ring first.store first.offered (nodes_of virtual_nodes) in
    (
      b,
      near.offered,
      answers-first virtual_nodes first rest i x some_backend at_i ∙ ap some found,
      answers-first virtual_nodes first rest j y some_backend at_j
          ∙ ap (λ k. some (lookup_hash ring (checksum_ieee (bytes k)))) (sym same)
          ∙ ap some found,
    )
