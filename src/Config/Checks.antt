-- ===== src/Config/Checks.antt =====
-- What each check of config/config.go accepts.
use text.Mathlib.TextEquality.{eq_iff}
use go_loadbalancer.Prelude.{
  ◌≡◌, ◌≢◌, refl, ◌↔◌, ◌⊎◌, inl, inr, arith, Option, none, some, String, Bool-cases, Option-cases,
  if◌then◌else◌,
}
use go_loadbalancer.Prelude.Int.{ℤ, pos, ◌≤ℤ◌, ltb_ℤ}
use go_loadbalancer.Prelude.Map.{◌==◌, string_key}
use go_loadbalancer.Go.Net.{Url, split_host_port}
use go_loadbalancer.Config.{
  BackendConfig, Parsers, checked_host_port, validate_host_port, validate_duration,
  checked_duration, checked_url, validate_backend_config,
}
use go_loadbalancer.Config.Rules.{Ozzo}

-- A text `host:port` with a port; the host is empty or passes `is.Host`.
abbrev pub Listens : (String → Type 0) → String → Type 0
Listens HostOk addr =
    (host : String) × (port : String) × (split_host_port addr ≡ some (host, port))
    × (port ≢ "")
    × ((host ≡ "") ⊎ HostOk host)

-- An address that parses, of scheme http or https, with a host.
abbrev pub Reachable : (String → Option Url) → String → Type 0
Reachable parse_url url =
    (url ≢ "")
    × (u : Url) × (parse_url url ≡ some u)
    × ((u.scheme ≡ "http") ⊎ (u.scheme ≡ "https"))
    × (u.host ≢ "")

abbrev pub Usable : (String → Option Url) → BackendConfig → Type 0
Usable parse_url b = Reachable parse_url b.url × (pos 1 ≤ℤ b.weight)

module _ (o : Ozzo) where
  abbrev pub HostOk : String → Type 0
  HostOk host = o.host host ≡ none

  host_port_iff :
      (host port : String)
      → (checked_host_port o (some (host, port)) ≡ none)
        ↔ ((port ≢ "") × ((host ≡ "") ⊎ HostOk host))
  unfolding checked_host_port
  host_port_iff host port = elim (Option-cases (o.host host)) [
    | inl fine ↦ rw fine (ground (arith, eq_iff port "", eq_iff host ""))
    | inr (e, bad) ↦ rw bad (ground (arith, eq_iff port "", eq_iff host ""))
  ]

  checked_host_port_iff :
      (found : Option (String × String))
      → (checked_host_port o found ≡ none) ↔ (
          (host : String) × (port : String) × (found ≡ some (host, port))
          × (port ≢ "")
          × ((host ≡ "") ⊎ HostOk host))
  unfolding checked_host_port
  checked_host_port_iff none = ((λ h. cc), (λ h. let (host, port, found, _, _) = h in cc))
  checked_host_port_iff (some (host, port)) = (
    (λ h.
        let (some_port, fine) = (host_port_iff host port).0 h in
        (host, port, refl, some_port, fine)),
    (λ h.
        let (x, y, found, some_port, fine) = h in
        let same_host : host ≡ x = cc in
        let same_port : port ≡ y = cc in
        (host_port_iff host port).1 (rw same_port some_port, rw same_host fine)),
  )

  pub validate_host_port_iff :
      (addr : String) → (validate_host_port o addr ≡ none) ↔ Listens HostOk addr
  unfolding validate_host_port
  validate_host_port_iff addr = checked_host_port_iff (split_host_port addr)

  module _ (p : Parsers) where
    checked_duration_iff :
        (found : Option ℤ) → (checked_duration o p found ≡ none) ↔ ((d : ℤ) × (found ≡ some d))
    unfolding checked_duration
    checked_duration_iff none = ((λ h. cc), (λ h. let (d, found) = h in cc))
    checked_duration_iff (some d) = ((λ h. (d, refl)), (λ h. refl))

    pub validate_duration_iff :
        (text : String)
        → (validate_duration o p text ≡ none) ↔ ((d : ℤ) × (p.parse_duration text ≡ some d))
    unfolding validate_duration
    validate_duration_iff text = checked_duration_iff (p.parse_duration text)

    checked_url_iff :
        (rest : Option o.Error) (found : Option Url)
        → (checked_url o p rest found ≡ none) ↔ (
            (u : Url) × (found ≡ some u)
            × ((u.scheme ≡ "http") ⊎ (u.scheme ≡ "https"))
            × (u.host ≢ "")
            × (rest ≡ none))
    unfolding checked_url
    checked_url_iff rest none = ((λ h. cc), (λ h. let (u, found, _, _, _) = h in cc))
    checked_url_iff rest (some u) = (
      (λ h. let (scheme, host, fine) = parts.0 h in (u, refl, scheme, host, fine)),
      (λ h.
          let (v, found, scheme, host, fine) = h in
          let same : u ≡ v = cc in parts.1 (rw same scheme, rw same host, fine)),
    )
      where
        parts :
            (checked_url o p rest (some u) ≡ none)
            ↔ (((u.scheme ≡ "http") ⊎ (u.scheme ≡ "https")) × (u.host ≢ "") × (rest ≡ none))
        parts = ground (arith, eq_iff u.scheme "http", eq_iff u.scheme "https", eq_iff u.host "")

    least_weight_iff :
        (e : o.Error) (w : ℤ) → ((if ltb_ℤ w (pos 1) then some e else none) ≡ none) ↔ (pos 1 ≤ℤ w)
    least_weight_iff e w = ground arith

    pub validate_backend_config_iff :
        (b : BackendConfig) → (validate_backend_config o p b ≡ none) ↔ Usable p.parse_url b
    unfolding validate_backend_config
    validate_backend_config_iff b = elim (Bool-cases (b.url == "")) [
      | inl empty ↦ rw empty ((λ h. cc), (λ h. absurd (h.0.0 ((eq_iff b.url "").0 empty))))
      | inr named ↦ rw named (
        (λ h.
            let (u, found, scheme, host, weight) = (checked_url_iff _ (p.parse_url b.url)).0 h in
            (
              (ground (arith, eq_iff b.url "", named), u, found, scheme, host),
              (least_weight_iff _ b.weight).0 weight,
            )),
        (λ h.
            let ((_, u, found, scheme, host), weight) = h in
            (checked_url_iff _ (p.parse_url b.url)).1
              (u, found, scheme, host, (least_weight_iff _ b.weight).1 weight)),
      )
    ]
