-- ===== src/Startup/Tests.antt =====
-- The theorem on the start at a concrete configuration.
use go_loadbalancer.Prelude.{
  ◌≡◌, ◌⊎◌, List, [], ◌∷◌, Option, none, some, String, if◌then◌else◌, All,
}
use go_loadbalancer.Prelude.Int.{pos}
use go_loadbalancer.Prelude.Map.{◌==◌, string_key}
use go_loadbalancer.Backend.{Backend}
use go_loadbalancer.Config.{BackendConfig}
use go_loadbalancer.Startup.{bad_interval, no_backends, failed, started, initialize_backends}
use go_loadbalancer.Startup.Backends.{Configured, initialize_backends_lem}

abbrev parse : String → Option String
parse s = if s == ":bad" then none else some s

abbrev configs : List BackendConfig
configs =
    record { url = ":bad"; weight = pos 1 } ∷ record { url = "http://a:1"; weight = pos 2 } ∷ []

initialize_backends_lem_example :
    (initialize_backends parse none configs ≡ failed bad_interval)
    × (((initialize_backends parse (some (pos 5)) configs ≡ failed no_backends)
          × All (λ c. parse c.url ≡ none) configs)
        ⊎ ((b : Backend) × (bs : List Backend) × (initialize_backends parse (some (pos 5)) configs
              ≡ started (pos 5) (b ∷ bs))
            × All (Configured parse configs) (b ∷ bs)))
initialize_backends_lem_example = initialize_backends_lem parse (pos 5) configs
