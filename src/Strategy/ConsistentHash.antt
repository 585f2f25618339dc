-- ===== src/Strategy/ConsistentHash.antt =====
-- internal/strategy/consistent_hash.go: consistent hashing on a ring of `crc32` positions. The ring
-- is an atomic value that is replaced as a whole; building it holds the mutex.
pub mod Successor
pub mod Placement
pub mod Affinity
mod Tests
use go_loadbalancer.Prelude.{
  ℕ, zero, suc, Bool, true, false, List, [], ◌∷◌, ◌++◌, Option, none, some, String, length, get_or,
  leb, if◌then◌else◌,
}
use go_loadbalancer.Prelude.Int.{ℤ, pos, leb_ℤ, pos_part}
use go_loadbalancer.Prelude.Map.{Map, lookup, insert, ◌==◌, nat_key}
use go_loadbalancer.Go.Crc.{bytes, itoa, checksum_ieee}
use go_loadbalancer.Go.Sort.{sort, nat_order}
use go_loadbalancer.Go.Search.{search}
use go_loadbalancer.Backend.{Store}

-- `ringSnapshot`.
pub record Ring : Type 0 where
  pub positions : List ℕ
  pub owners : Map ℕ ℕ

pub record ConsistentHashStrategy : Type 0 where
  pub virtual_nodes : ℤ
  pub ring : Ring
  pub hash_key : ℕ

-- Position of virtual node `i` of a backend: the checksum of `url#i`.
unfoldable pub position : Store → ℕ → ℕ → ℕ
position store b i = checksum_ieee (bytes (store b).url ++ (b'#' ∷ itoa i))

-- The inner loop, with `i` rising as the count of rounds left falls.
place : Store → ℕ → ℕ → ℕ → Ring → Ring
place store b i zero ring = ring
place store b i (suc rounds) ring =
    let hash = position store b i in
    place store b (suc i) rounds
      (record { positions = ring.positions ++ (hash ∷ []); owners = insert hash b ring.owners })

place_all : Store → ℕ → List ℕ → Ring → Ring
unfolding place
place_all store vnodes [] ring = ring
place_all store vnodes (b ∷ bs) ring = place_all store vnodes bs (place store b 0 vnodes ring)

abbrev pub empty_ring : Ring
empty_ring = record { positions = []; owners = [] }

-- `vnodes` is the number of rounds of `for i := 0; i < vnodes; i++`, 0 for a negative count.
unfoldable pub build_ring : Store → List ℕ → ℤ → Ring
unfolding place_all
build_ring store backends vnodes =
    let ring = place_all store (pos_part vnodes) backends empty_ring in
    record { positions = sort nat_order ring.positions; owners = ring.owners }

-- The index of the first position at or after the hash, 0 past the last.
index_of : List ℕ → ℕ → ℕ
index_of positions hash =
    let idx = search (length positions) (λ i. leb hash (get_or positions i 0)) in
    if idx == length positions then 0 else idx

lookup_at : Ring → ℕ → List ℕ → Option ℕ
lookup_at ring hash [] = none
lookup_at ring hash (p ∷ ps) = lookup (get_or (p ∷ ps) (index_of (p ∷ ps) hash) 0) ring.owners

-- `r.lookup(hash)`, `none` for nil.
unfoldable pub lookup_hash : Ring → ℕ → Option ℕ
unfolding lookup_at index_of
lookup_hash ring hash = lookup_at ring hash ring.positions

-- `NewConsistentHashStrategy`.
unfoldable pub new : ℤ → ConsistentHashStrategy
new virtual_nodes = record {
  virtual_nodes = if leb_ℤ virtual_nodes (pos 0) then pos 100 else virtual_nodes;
  ring = empty_ring;
  hash_key = 0;
}

unfoldable pub set_key : String → ConsistentHashStrategy → ConsistentHashStrategy
set_key key s = record s { hash_key = checksum_ieee (bytes key) }

unfoldable pub rebuild : Store → List ℕ → ConsistentHashStrategy → ConsistentHashStrategy
rebuild store backends s = record s { ring = build_ring store backends s.virtual_nodes }

-- Whether the snapshot has no positions, so that the ring is to be built.
is_empty : List ℕ → Bool
is_empty [] = true
is_empty (p ∷ ps) = false

-- The check under the mutex, after the one without it, sees the same ring unless another goroutine
-- built it, so one check stands for both.
unfoldable pub select_backend :
    Store → List ℕ → ConsistentHashStrategy → ConsistentHashStrategy × Option ℕ
unfolding is_empty rebuild
select_backend store backends s =
    let s' = if is_empty s.ring.positions then rebuild store backends s else s in
    (s', lookup_hash s'.ring s'.hash_key)
