-- ===== src/Logger/Tests.antt =====
-- The logger of a configuration, where every text is in lower case.
use go_loadbalancer.Prelude.{◌≡◌, refl}
use go_loadbalancer.Logger.{parse_level, level_info}

unknown : parse_level (λ s. s) "trace" ≡ level_info
unfolding parse_level
unknown = refl
