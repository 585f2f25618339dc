-- ===== src/Config.antt =====
-- config/config.go: the configuration, and the checks that `Load` makes of it. The rules of the
-- validation package are the parameter `Ozzo`. A rule receives a value of the type that its field
-- has, so the failing type assertions of the code have no counterpart.
pub mod Rules
pub mod Fields
pub mod Checks
pub mod Accepted
pub mod Example
mod Tests
use go_loadbalancer.Prelude.{
  ℕ, Bool, List, [], ◌∷◌, Option, none, some, String, map, length, not, ◌&&◌, ◌||◌, if◌then◌else◌,
}
use go_loadbalancer.Prelude.Int.{ℤ, pos, ltb_ℤ}
use go_loadbalancer.Prelude.Map.{◌==◌, string_key}
use go_loadbalancer.Go.Net.{Url, split_host_port}
use Rules.{Ozzo}

pub record ServerConfig : Type 0 where
  pub address : String
  pub environment : String

pub record HealthCheckConfig : Type 0 where
  pub interval : String

pub record StrategyConfig : Type 0 where
  pub type : String
  pub virtual_nodes : ℤ

pub record BackendConfig : Type 0 where
  pub url : String
  pub weight : ℤ

pub record LoggingConfig : Type 0 where
  pub level : String

pub record CircuitBreakerConfig : Type 0 where
  pub enabled : Bool
  pub failure_threshold : ℤ
  pub reset_timeout : String

pub record RetryConfig : Type 0 where
  pub max_retries : ℤ

pub record Config : Type 0 where
  pub server : ServerConfig
  pub health_check : HealthCheckConfig
  pub strategy : StrategyConfig
  pub backends : List BackendConfig
  pub logging : LoggingConfig
  pub circuit_breaker : CircuitBreakerConfig
  pub retry : RetryConfig

-- `viper.SetDefault`; there is no default for the backends.
abbrev pub defaults : Config
defaults = record {
  server = record { address = ":8080"; environment = "dev" };
  health_check = record { interval = "2s" };
  strategy = record { type = "round-robin"; virtual_nodes = pos 100 };
  backends = [];
  logging = record { level = "info" };
  circuit_breaker = record {
    enabled = Bool.true;
    failure_threshold = pos 5;
    reset_timeout = "30s";
  };
  retry = record { max_retries = pos 2 };
}

abbrev pub environments : List String
environments = "dev" ∷ "staging" ∷ "prod" ∷ []

abbrev pub levels : List String
levels = "debug" ∷ "info" ∷ "warn" ∷ "error" ∷ []

abbrev pub strategies : List String
strategies =
    "round-robin" ∷ "least-conn" ∷ "least-response" ∷ "random" ∷ "consistent_hash"
    ∷ "weighted-round-robin" ∷ []

-- `time.ParseDuration` and `url.Parse`, `none` for an error.
pub record Parsers : Type 0 where
  pub parse_duration : String → Option ℤ
  pub parse_url : String → Option Url

module _ (o : Ozzo) where
  -- What follows `net.SplitHostPort`.
  checked_host_port : Option (String × String) → Option o.Error
  checked_host_port none =
      some (o.new_error "validation_invalid_hostport" "must be in host:port format")
  checked_host_port (some (host, port)) =
      if port == ""
      then some (o.new_error "validation_invalid_port" "port cannot be empty")
      else if host == ""
      then none
      else (elim (o.host host) [
        | none ↦ none
        | some e ↦ some (o.new_error "validation_invalid_host" "invalid host")
      ])

  unfoldable pub validate_host_port : String → Option o.Error
  unfolding checked_host_port
  validate_host_port addr = checked_host_port (split_host_port addr)

  module _ (p : Parsers) where
    -- What follows `time.ParseDuration`.
    checked_duration : Option ℤ → Option o.Error
    checked_duration none =
        some
          (o.new_error "validation_invalid_duration" "must be a valid duration (e.g., 2s, 5m, 1h)")
    checked_duration (some d) = none

    unfoldable pub validate_duration : String → Option o.Error
    unfolding checked_duration
    validate_duration duration = checked_duration (p.parse_duration duration)

    -- The checks after `url.Parse`, with `rest` for those after the checks of the address.
    checked_url : Option o.Error → Option Url → Option o.Error
    checked_url rest none = some (o.new_error "validation_invalid_url" "must be a valid URL")
    checked_url rest (some u) =
        if not (u.scheme == "http") && not (u.scheme == "https")
        then some (o.new_error "validation_invalid_scheme" "URL must use http or https scheme")
        else if u.host == ""
        then some (o.new_error "validation_missing_host" "URL must have a host")
        else rest

    unfoldable pub validate_server_url : String → Option o.Error
    unfolding checked_url
    validate_server_url url =
        if url == ""
        then some (o.new_error "validation_empty_url" "server URL cannot be empty")
        else checked_url none (p.parse_url url)

    unfoldable pub validate_backend_config : BackendConfig → Option o.Error
    unfolding checked_url
    validate_backend_config b =
        if b.url == ""
        then some (o.new_error "validation_empty_url" "backend URL cannot be empty")
        else checked_url
            (if ltb_ℤ b.weight (pos 1)
              then some (o.new_error "validation_invalid_weight" "weight must be at least 1")
              else none)
            (p.parse_url b.url)

    unfoldable pub validate_server : ServerConfig → Option o.Error
    unfolding validate_host_port
    validate_server sc = o.validate_struct (
        o.field (o.required_text sc.environment ∷ o.is_in environments sc.environment ∷ [])
        ∷ o.field (o.required_text sc.address ∷ validate_host_port sc.address ∷ [])
        ∷ [])

    unfoldable pub validate_strategy : StrategyConfig → Option o.Error
    validate_strategy sc = o.validate_struct (
        o.field (o.required_text sc.type ∷ o.is_in strategies sc.type ∷ [])
        ∷ o.field (o.required_number sc.virtual_nodes ∷ o.min (pos 1) sc.virtual_nodes ∷ [])
        ∷ [])

    -- `Validate`: one entry for each field that it names, in its order.
    unfoldable pub validate : Config → Option o.Error
    unfolding validate_server validate_strategy validate_duration validate_backend_config
    validate c = o.validate_struct (
        o.field (o.required_struct ∷ validate_server c.server ∷ [])
        ∷ o.field (
            o.required_struct
            ∷ o.validate_struct (
                o.field (o.required_text c.logging.level ∷ o.is_in levels c.logging.level ∷ [])
                ∷ [])
            ∷ [])
        ∷ o.field (
            o.required_struct
            ∷ o.validate_struct (
                o.field (
                  o.required_text c.health_check.interval
                  ∷ validate_duration c.health_check.interval
                  ∷ [])
                ∷ [])
            ∷ [])
        ∷ o.field (
            o.required_list (length c.backends)
            ∷ o.length 1 0 (length c.backends)
            ∷ o.each (map validate_backend_config c.backends)
            ∷ [])
        ∷ o.field (o.required_struct ∷ validate_strategy c.strategy ∷ [])
        ∷ [])
