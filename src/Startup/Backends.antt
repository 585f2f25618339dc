-- ===== src/Startup/Backends.antt =====
-- Which backends the program starts with (cmd/main.go).
use go_loadbalancer.Prelude.{
  ◌≡◌, refl, sym, subst, ◌∙◌, ◌⊎◌, inl, inr, false, List, [], ◌∷◌, Option, none, some, String, In,
  All, Option-cases, ◌<◌, length, arith,
}
use go_loadbalancer.Prelude.Int.{ℤ, pos}
use go_loadbalancer.Backend.{Backend}
use go_loadbalancer.Backend
use go_loadbalancer.Config.{BackendConfig}
use go_loadbalancer.Startup.{
  collect, bad_interval, no_backends, failed, started, not_empty, initialize_backends,
}

-- A backend comes from an entry whose address can be parsed, with that entry's weight; it starts out
-- down and idle.
abbrev pub Configured : (String → Option String) → List BackendConfig → Backend → Type 0
Configured parse configs b =
    (c : BackendConfig) × In c configs
    × (parse c.url ≡ some b.url)
    × (b.weight ≡ c.weight)
    × (b.is_healthy ≡ false)
    × (b.active_connections ≡ pos 0)

Configured-cons :
    (parse : String → Option String) (c : BackendConfig) (cs : List BackendConfig)
    (bs : List Backend)
    → All (Configured parse cs) bs
    → All (Configured parse (c ∷ cs)) bs
Configured-cons parse c cs [] all = tt
Configured-cons parse c cs (b ∷ bs) ((d, i, a, w, u, n), all) =
    ((d, inr i, a, w, u, n), Configured-cons parse c cs bs all)

collect-none :
    (parse : String → Option String) (c : BackendConfig) (cs : List BackendConfig)
    → parse c.url ≡ none
    → collect parse (c ∷ cs) ≡ collect parse cs
unfolding collect
collect-none parse c cs e = rw (collect, e) refl

collect-some :
    (parse : String → Option String) (c : BackendConfig) (cs : List BackendConfig)
    (address : String)
    → parse c.url ≡ some address
    → collect parse (c ∷ cs) ≡ Backend.new address c.weight ∷ collect parse cs
unfolding collect
collect-some parse c cs address e = rw (collect, e) refl

collect-Configured :
    (parse : String → Option String) (cs : List BackendConfig)
    → All (Configured parse cs) (collect parse cs)
unfolding collect Backend.new
collect-Configured parse [] = tt
collect-Configured parse (c ∷ cs) = elim (Option-cases (parse c.url)) [
  | inl e ↦
      subst (All (Configured parse (c ∷ cs))) (sym (collect-none parse c cs e))
        (Configured-cons parse c cs (collect parse cs) (collect-Configured parse cs))
  | inr (address, e) ↦
      subst (All (Configured parse (c ∷ cs))) (sym (collect-some parse c cs address e)) (
        (c, inl refl, e, refl, refl, refl),
        Configured-cons parse c cs (collect parse cs) (collect-Configured parse cs),
      )
]

collect-nil :
    (parse : String → Option String) (cs : List BackendConfig)
    → collect parse cs ≡ []
    → All (λ c. parse c.url ≡ none) cs
collect-nil parse [] e = tt
collect-nil parse (c ∷ cs) e = elim (Option-cases (parse c.url)) [
  | inl bad ↦ (bad, collect-nil parse cs (sym (collect-none parse c cs bad) ∙ e))
  | inr (address, good) ↦ let h = sym (collect-some parse c cs address good) ∙ e in cc
]

-- The start fails for a bad interval; with a good one it fails exactly if no address can be parsed,
-- and otherwise there is at least one backend, and each comes from an entry whose address can be
-- parsed, with its weight, down and idle, and has its health checks at the interval.
pub initialize_backends_lem :
    (parse : String → Option String) (interval : ℤ) (cs : List BackendConfig)
    → (initialize_backends parse none cs ≡ failed bad_interval)
      × (((initialize_backends parse (some interval) cs ≡ failed no_backends)
            × All (λ c. parse c.url ≡ none) cs)
          ⊎ ((b : Backend) × (bs : List Backend) × (initialize_backends parse (some interval) cs
                ≡ started interval (b ∷ bs))
              × All (Configured parse cs) (b ∷ bs)))
unfolding initialize_backends
initialize_backends_lem parse interval cs =
    (refl, by_list (collect parse cs) (collect-Configured parse cs) (λ e. collect-nil parse cs e))
  where
    by_list :
        (bs : List Backend)
        → All (Configured parse cs) bs
        → (bs ≡ [] → All (λ c. parse c.url ≡ none) cs)
        → ((not_empty interval bs ≡ failed no_backends) × All (λ c. parse c.url ≡ none) cs)
          ⊎ ((b : Backend) × (rest : List Backend) × (not_empty interval bs
                ≡ started interval (b ∷ rest))
              × All (Configured parse cs) (b ∷ rest))
    by_list [] all none_parsed = inl (refl, none_parsed refl)
    by_list (b ∷ rest) all none_parsed = inr (b, rest, refl, all)

-- With an interval and a backend the start succeeds.
pub initialize_backends-started :
    (parse : String → Option String) (interval : ℤ) (cs : List BackendConfig)
    → 0 < length (collect parse cs)
    → initialize_backends parse (some interval) cs ≡ started interval (collect parse cs)
unfolding initialize_backends
initialize_backends-started parse interval cs some_backend = by_list (collect parse cs) some_backend
  where
    by_list : (bs : List Backend) → 0 < length bs → not_empty interval bs ≡ started interval bs
    by_list [] h = absurd (omega arith)
    by_list (b ∷ bs) h = refl
