-- ===== src/Logger.antt =====
-- pkg/logger/logger.go: how the logger is set up. `strings.ToLower` is the argument `lower`; what the
-- logger writes is left to log/slog.
pub mod Levels
mod Tests
use go_loadbalancer.Prelude.{Bool, String, List, [], ◌∷◌, if◌then◌else◌}
use go_loadbalancer.Prelude.Map.{◌==◌, string_key}

pub data Level : Type 0 where
  level_debug level_info level_warn level_error : Level

-- What `switch` makes of a level in lower case.
abbrev pub level_of : String → Level
level_of level =
    if level == "debug"
    then level_debug
    else if level == "info"
    then level_info
    else if level == "warn"
    then level_warn
    else if level == "error"
    then level_error
    else level_info

unfoldable pub parse_level : (String → String) → String → Level
parse_level lower level = level_of (lower level)

pub data Format : Type 0 where
  json text : Format

-- The logger: the options of its handler, the format, and the attribute that is added to every record.
pub record Logger : Type 0 where
  pub level : Level
  pub add_source : Bool
  pub format : Format
  pub attributes : List (String × String)

unfoldable pub new : (String → String) → String → Bool → String → Logger
unfolding parse_level
new lower lvl add_source environment = record {
  level = parse_level lower lvl;
  add_source = add_source;
  format = if lower environment == "prod" then json else text;
  attributes = ("environment", environment) ∷ [];
}
