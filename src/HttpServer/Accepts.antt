-- ===== src/HttpServer/Accepts.antt =====
-- Which addresses internal/httpserver/server.go accepts.
use go_loadbalancer.Prelude.{
  ◌≡◌, ◌≢◌, refl, ap, ◌⊎◌, ◌↔◌, arith, Bool, true, Option, none, some, String,
}
use text.Mathlib.TextEquality.{eq_iff}
use go_loadbalancer.Prelude.Map.{string_key}
use go_loadbalancer.Go.Net.{split_host_port}
use go_loadbalancer.Config.Checks.{Listens}
use go_loadbalancer.HttpServer.{Server, created, create, new, checked_host, validate_host}

host_port-none :
    (is_host : String → Bool) (host port : String)
    → (checked_host is_host (some (host, port)) ≡ none)
      ↔ ((port ≢ "") × ((host ≡ "") ⊎ (is_host host ≡ true)))
unfolding checked_host
host_port-none is_host host port = ground (arith, eq_iff port "", eq_iff host "")

checked_host-none :
    (is_host : String → Bool) (found : Option (String × String))
    → (checked_host is_host found ≡ none) ↔ (
        (host : String) × (port : String) × (found ≡ some (host, port))
        × (port ≢ "")
        × ((host ≡ "") ⊎ (is_host host ≡ true)))
unfolding checked_host
checked_host-none is_host none = ((λ h. cc), (λ h. let (host, port, found, _, _) = h in cc))
checked_host-none is_host (some (host, port)) = (
  (λ h.
      let (some_port, fine) = (host_port-none is_host host port).0 h in
      (host, port, refl, some_port, fine)),
  (λ h.
      let (x, y, found, some_port, fine) = h in
      let same_host : host ≡ x = cc in
      let same_port : port ≡ y = cc in
      (host_port-none is_host host port).1 (rw same_port some_port, rw same_host fine)),
)

-- The server accepts an address exactly under the conditions that the configuration puts on it, with
-- its own test of the host.
pub validate_host-none :
    (is_host : String → Bool) (addr : String)
    → (validate_host is_host addr ≡ none) ↔ Listens (λ h. is_host h ≡ true) addr
unfolding validate_host
validate_host-none is_host addr = checked_host-none is_host (split_host_port addr)

pub new-created :
    {H : Type 0} (is_host : String → Bool) (addr : String) (h : H)
    → validate_host is_host addr ≡ none
    → (s : Server H) × (new is_host addr h ≡ created s) × (s.addr ≡ addr) × (s.handler ≡ h)
unfolding new
new-created is_host addr h e = (_, ap (create addr h) e, refl, refl)
