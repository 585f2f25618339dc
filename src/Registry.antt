-- ===== src/Registry.antt =====
-- internal/circuitbreaker/registry.go: one circuit breaker for each backend address. The map holds
-- pointers, so the breakers live on a heap, with `fresh` the next address that is free.
pub mod Laws
pub mod Sharing
pub mod View
mod Tests
use go_loadbalancer.Prelude.{ℕ, suc, List, [], ◌∷◌, Option, none, some, String, if◌then◌else◌}
use go_loadbalancer.Prelude.Int.{ℤ}
use go_loadbalancer.Prelude.Map.{Map, lookup, insert, ◌==◌, nat_key, string_key}
use go_loadbalancer.Breaker.{Breaker, State}
use go_loadbalancer.Breaker

pub record Registry : Type 0 where
  pub breakers : Map String ℕ
  pub heap : ℕ → Breaker
  pub fresh : ℕ
  pub threshold : ℤ
  pub timeout : ℤ

unfoldable pub new : ℤ → ℤ → Registry
new threshold timeout = record {
  breakers = [];
  heap = λ p. Breaker.new threshold timeout;
  fresh = 0;
  threshold = threshold;
  timeout = timeout;
}

-- A write through the pointer `p`.
unfoldable pub write : ℕ → Breaker → Registry → Registry
write p b r = record r { heap = λ q. if q == p then b else r.heap q }

-- `NewCircuitBreaker` on the heap, and its pointer in the map.
unfoldable pub allocate : String → Registry → Registry
unfolding write
allocate url r = record (write r.fresh (Breaker.new r.threshold r.timeout) r) {
  breakers = insert url r.fresh r.breakers;
  fresh = suc r.fresh;
}

-- `GetBreaker` in its two critical sections: the look-up under the read lock, and, if it missed,
-- the second look-up and the insertion under the write lock.
unfoldable pub read_locked : String → Registry → Option ℕ
read_locked url r = lookup url r.breakers

unfoldable pub write_locked : String → Registry → Registry × ℕ
unfolding allocate
write_locked url r = elim (lookup url r.breakers) [
  | some p ↦ (r, p)
  | none ↦ (allocate url r, r.fresh)
]

-- `GetBreaker` of a goroutine that runs alone.
unfoldable pub get_breaker : String → Registry → Registry × ℕ
unfolding read_locked write_locked
get_breaker url r = elim (read_locked url r) [ some p ↦ (r, p) | none ↦ write_locked url r ]

unfoldable pub reset : Registry → Registry
reset r = record r { breakers = [] }

stats_of : (ℕ → Breaker) → Map String ℕ → Map String State
stats_of heap [] = []
stats_of heap ((url, p) ∷ m) = (url, (heap p).state) ∷ stats_of heap m

unfoldable pub stats : Registry → Map String State
unfolding stats_of
stats r = stats_of r.heap r.breakers
