-- ===== src/Registry/Tests.antt =====
-- The theorems on the registry at concrete addresses.
use go_loadbalancer.Prelude.{ℕ, ◌≡◌, refl, ◌↔◌, some, String}
use go_loadbalancer.Prelude.Int.{pos}
use go_loadbalancer.Prelude.Map.{lookup, insert, string_key, nat_key}
use go_loadbalancer.Registry.{Registry, new, read_locked, write_locked, allocate, write}
use go_loadbalancer.Registry.Sharing.{
  Reach, here, next, start, System, missed, holds, set_thread, miss, locked,
  one_breaker_per_address,
}

abbrev registry : Registry
registry = new (pos 3) (pos 1000)

abbrev urls : ℕ → String
urls i = "http://a:1"

-- Both goroutines miss before either takes the write lock.
abbrev url : String
url = "http://a:1"

abbrev start_state : System
start_state = start (pos 3) (pos 1000) urls

abbrev first_in : Registry × ℕ
first_in = write_locked url registry

abbrev second_in : Registry × ℕ
second_in = write_locked url first_in.0

abbrev end_state : System
end_state = record {
  registry = second_in.0;
  threads = set_thread 1 (holds url second_in.1) (
      set_thread 0 (holds url first_in.1)
        (set_thread 1 (missed url) (set_thread 0 (missed url) start_state.threads)));
}

reached : Reach start_state end_state
unfolding set_thread read_locked lookup new
reached =
    next
      (next (next (next here (miss start_state 0 url refl refl)) (miss _ 1 url refl refl))
        (locked _ 0 url refl))
      (locked _ 1 url refl)

one_breaker_per_address_example :
    (lookup url end_state.registry.breakers ≡ some first_in.1)
    × ((url ≡ url) ↔ (first_in.1 ≡ second_in.1))
unfolding set_thread lookup insert new write_locked allocate write
one_breaker_per_address_example =
    one_breaker_per_address (pos 3) (pos 1000) urls 0 1 url url first_in.1 second_in.1 reached refl
      refl
