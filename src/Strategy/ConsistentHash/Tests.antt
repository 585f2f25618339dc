-- ===== src/Strategy/ConsistentHash/Tests.antt =====
-- The theorems on consistent hashing at concrete backends and keys.
use go_loadbalancer.Prelude.{
  ℕ, ◌≡◌, refl, get_elem?, List, arith, [], ◌∷◌, some, if◌then◌else◌, In, true, false,
}
use go_loadbalancer.Prelude.Int.{pos}
use go_loadbalancer.Prelude.Map.{◌==◌, nat_key}
use go_loadbalancer.Go.Crc.{bytes, checksum_ieee}
use go_loadbalancer.Backend.{Store}
use go_loadbalancer.Strategy.ConsistentHash.{new, set_key, select_backend}
use go_loadbalancer.Strategy.ConsistentHash.Affinity.{
  Nearest, select_backend-Nearest, Selection, answers, select_backend_stale,
}

abbrev store : Store
store p = record {
  url = if p == 0 then "http://a:1" else "http://b:1";
  is_healthy = true;
  active_connections = pos 0;
  weight = pos 1;
  ewma_response_time = pos 0;
  has_ewma = false;
}

-- Backend 0 is down.
abbrev later_store : Store
later_store p = record (store p) { is_healthy = if p == 0 then false else true }

select_backend-Nearest_example :
    (b : ℕ) × (i : ℕ) × ((select_backend store (0 ∷ 1 ∷ []) (set_key "10.0.0.1" (new (pos 2)))).1
      ≡ some b)
    × Nearest store (0 ∷ 1 ∷ []) 2 (checksum_ieee (bytes "10.0.0.1")) b i
select_backend-Nearest_example =
    select_backend-Nearest store (0 ∷ 1 ∷ []) (pos 2) "10.0.0.1" (omega arith)

-- The first client comes again when its backend is down, after two others.
abbrev early : Selection
early = record { store = store; offered = 0 ∷ 1 ∷ []; key = "10.0.0.1" }

abbrev late : Selection
late = record early { store = later_store; offered = 1 ∷ [] }

abbrev others : List Selection
others = record early { key = "10.0.0.2" } ∷ record late { key = "10.0.0.3" } ∷ late ∷ []

select_backend_stale_example :
    let chosen = answers (new (pos 2)) (early ∷ others) in
    (b : ℕ) × In b (0 ∷ 1 ∷ [])
    × (get_elem? chosen 0 ≡ some (some b))
    × (get_elem? chosen 3 ≡ some (some b))
select_backend_stale_example =
    select_backend_stale (pos 2) early others 0 3 early late (omega arith) refl refl refl
