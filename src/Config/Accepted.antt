-- ===== src/Config/Accepted.antt =====
-- Which configurations `Validate` of config/config.go accepts.
use text.Mathlib.TextEquality.{eq_iff}
use go_loadbalancer.Prelude.{
  ◌<◌, ◌≡◌, ◌≢◌, refl, ap, ◌↔◌, inl, inr, arith, false, List, [], ◌∷◌, none, some, String, In, All,
  map, length,
}
use go_loadbalancer.Prelude.Int.{ℤ, pos, ◌≤ℤ◌}
use go_loadbalancer.Prelude.Map.{◌==◌, string_key}
use go_loadbalancer.Go.Net.{split_host_port}
use go_loadbalancer.Config.{
  Config, ServerConfig, StrategyConfig, BackendConfig, environments, levels, strategies, Parsers,
  validate_duration, validate_backend_config, validate_server, validate_strategy, validate,
}
use go_loadbalancer.Config.Rules.{Ozzo, Documented}
use go_loadbalancer.Config.Fields.{
  two_rules, two_fields, one_field, struct_field, known_text, positive_number,
}
use go_loadbalancer.Config.Checks.{
  Listens, Usable, HostOk, validate_host_port_iff, validate_duration_iff,
  validate_backend_config_iff,
}

pub record Accepted (HostOk : String → Type 0) (p : Parsers) (c : Config) : Type 0 where
  pub environment_known : In c.server.environment environments
  pub listens : Listens HostOk c.server.address
  pub level_known : In c.logging.level levels
  pub interval_parses :
      (c.health_check.interval ≢ "") × (d : ℤ) × (p.parse_duration c.health_check.interval ≡ some d)
  pub some_backend : 0 < length c.backends
  pub all_usable : All (Usable p.parse_url) c.backends
  pub strategy_known : In c.strategy.type strategies
  pub nodes_positive : pos 1 ≤ℤ c.strategy.virtual_nodes

-- Equal to one of the texts, none of which is empty.
unlisted : (s : String) (xs : List String) → All (λ x. (s == x) ≡ false) xs → ¬ In s xs
unlisted s [] all i = elim i [ ]
unlisted s (x ∷ xs) all (inl e) = let h = (eq_iff s x).1 e in let g = all.0 in cc
unlisted s (x ∷ xs) all (inr i) = unlisted s xs all.1 i

split_empty : split_host_port "" ≡ none
unfolding split_host_port
split_empty = refl

no_port_missing : (HostOk : String → Type 0) (addr : String) → Listens HostOk addr → addr ≢ ""
no_port_missing HostOk addr (host, port, found, _, _) e =
    let same = ap split_host_port e in let nothing = split_empty in cc

module _ (o : Ozzo) (d : Documented o) (p : Parsers) where
  each-Usable :
      (bs : List BackendConfig)
      → All (λ r. r ≡ none) (map (validate_backend_config o p) bs) ↔ All (Usable p.parse_url) bs
  each-Usable [] = ((λ h. tt), (λ h. tt))
  each-Usable (b ∷ bs) =
      let head = validate_backend_config_iff o p b in
      let tail = each-Usable bs in
      ((λ h. (head.0 h.0, tail.0 h.1)), (λ h. (head.1 h.0, tail.1 h.1)))

  backends_field :
      (bs : List BackendConfig)
      → (o.field (
            o.required_list (length bs)
            ∷ o.length 1 0 (length bs)
            ∷ o.each (map (validate_backend_config o p) bs)
            ∷ [])
          ≡ none)
        ↔ ((0 < length bs) × All (Usable p.parse_url) bs)
  backends_field bs = (
    (λ h.
        let (some_backend, (_, (all, _))) = (d.field_iff _).0 h in
        (
          (d.required_list_iff (length bs)).0 some_backend,
          (each-Usable bs).0 ((d.each_iff _).0 all),
        )),
    (λ h. (d.field_iff _).1 (
      (d.required_list_iff (length bs)).1 h.0,
      (
        (d.length_iff 1 0 (length bs)).1 (inr (omega (arith, h.0), inl refl)),
        ((d.each_iff _).1 ((each-Usable bs).1 h.1), tt),
      ),
    )),
  )

  server_field :
      (sc : ServerConfig)
      → (validate_server o p sc ≡ none)
        ↔ (In sc.environment environments × Listens (HostOk o) sc.address)
  unfolding validate_server
  server_field sc =
      let known =
        known_text o d environments sc.environment
          (unlisted "" environments (refl, (refl, (refl, tt)))) in
      let listens = validate_host_port_iff o sc.address in
      (
        (λ h.
            let (environment, address) = (two_fields o d).0 h in
            (known.0 environment, listens.0 ((two_rules o d).0 address).1)),
        (λ h. (two_fields o d).1 (
          known.1 h.0,
          (two_rules o d).1 (
            (d.required_text_iff sc.address).1 (no_port_missing (HostOk o) sc.address h.1),
            listens.1 h.1,
          ),
        )),
      )

  interval_field :
      (interval : String)
      → (o.field (o.required_text interval ∷ validate_duration o p interval ∷ []) ≡ none)
        ↔ ((interval ≢ "") × (t : ℤ) × (p.parse_duration interval ≡ some t))
  interval_field interval = (
    (λ h.
        let (named, parsed) = (two_rules o d).0 h in
        let (t, e) = (validate_duration_iff o p interval).0 parsed in
        ((d.required_text_iff interval).0 named, t, e)),
    (λ h.
        let (named, t, e) = h in
        (two_rules o d).1
          ((d.required_text_iff interval).1 named, (validate_duration_iff o p interval).1 (t, e))),
  )

  strategy_field :
      (sc : StrategyConfig)
      → (validate_strategy o p sc ≡ none) ↔ (In sc.type strategies × (pos 1 ≤ℤ sc.virtual_nodes))
  unfolding validate_strategy
  strategy_field sc =
      let known =
        known_text o d strategies sc.type
          (unlisted "" strategies (refl, (refl, (refl, (refl, (refl, (refl, tt))))))) in
      let nodes = positive_number o d sc.virtual_nodes in
      (
        (λ h. let (type, number) = (two_fields o d).0 h in (known.0 type, nodes.0 number)),
        (λ h. (two_fields o d).1 (known.1 h.0, nodes.1 h.1)),
      )

  level_field :
      (level : String)
      → (o.validate_struct (o.field (o.required_text level ∷ o.is_in levels level ∷ []) ∷ [])
          ≡ none)
        ↔ In level levels
  level_field level =
      let known =
        known_text o d levels level (unlisted "" levels (refl, (refl, (refl, (refl, tt))))) in
      ((λ h. known.0 ((one_field o d).0 h)), (λ i. (one_field o d).1 (known.1 i)))

  -- With the rules as their package documents them, `Validate` accepts exactly the configurations with
  -- a known environment, level and strategy, an address with a port and a fine host, an interval
  -- that is not empty and parses, a positive number of virtual nodes, and at least one backend, each
  -- of a positive weight and with an http or https address that parses and has a host.
  pub validate_iff : (c : Config) → (validate o p c ≡ none) ↔ Accepted (HostOk o) p c
  unfolding validate
  validate_iff c = (
    (λ h.
        let (server, (logging, (health, (backends, (strategy, _))))) =
          (d.validate_struct_iff _).0 h in
        let at = (server_field c.server).0 ((struct_field o d).0 server) in
        let interval =
          (interval_field c.health_check.interval).0
            ((one_field o d).0 ((struct_field o d).0 health)) in
        let usable = (backends_field c.backends).0 backends in
        let chosen = (strategy_field c.strategy).0 ((struct_field o d).0 strategy) in
        record {
          environment_known = at.0;
          listens = at.1;
          level_known = (level_field c.logging.level).0 ((struct_field o d).0 logging);
          interval_parses = interval;
          some_backend = usable.0;
          all_usable = usable.1;
          strategy_known = chosen.0;
          nodes_positive = chosen.1;
        }),
    (λ a. (d.validate_struct_iff _).1 (
      (struct_field o d).1 ((server_field c.server).1 (a.environment_known, a.listens)),
      (
        (struct_field o d).1 ((level_field c.logging.level).1 a.level_known),
        (
          (struct_field o d).1
              ((one_field o d).1 ((interval_field c.health_check.interval).1 a.interval_parses)),
          (
            (backends_field c.backends).1 (a.some_backend, a.all_usable),
            (
              (struct_field o d).1
                  ((strategy_field c.strategy).1 (a.strategy_known, a.nodes_positive)),
              tt,
            ),
          ),
        ),
      ),
    )),
  )
