-- ===== src/Config/Tests.antt =====
-- The theorem on `Validate` at a concrete configuration.
use go_loadbalancer.Prelude.{◌≡◌, refl, ◌↔◌, none}
use go_loadbalancer.Go.Text.{cut_last, contains}
use go_loadbalancer.Go.Net.{split_host_port}
use go_loadbalancer.Config.{validate}
use go_loadbalancer.Config.Checks.{HostOk}
use go_loadbalancer.Config.Accepted.{Accepted, validate_iff}
use go_loadbalancer.Config.Example.{rules, rules-Documented, parsers, config}

validate_iff_example :
    (validate rules parsers config ≡ none) ↔ Accepted (HostOk rules) parsers config
validate_iff_example = validate_iff rules rules-Documented parsers config

accepts : validate rules parsers config ≡ none
unfolding validate rules split_host_port cut_last contains
accepts = refl
