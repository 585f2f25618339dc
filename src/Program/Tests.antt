-- ===== src/Program/Tests.antt =====
-- The theorem on `main` at a concrete configuration; its reset timeout does not parse.
use go_loadbalancer.Prelude.{Bool, String}
use go_loadbalancer.Prelude.Map.{◌==◌, string_key}
use go_loadbalancer.Backend.{Backend}

abbrev is_host : String → Bool
is_host h = h == "localhost"
