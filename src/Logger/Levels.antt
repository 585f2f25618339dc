-- ===== src/Logger/Levels.antt =====
-- The logger of pkg/logger/logger.go under a configuration that was accepted.
use go_loadbalancer.Prelude.{String}
use go_loadbalancer.Config.{Config}
use go_loadbalancer.Logger.{Level, level_debug, level_info, level_warn, level_error}

-- The word of the configuration for a level.
abbrev pub word : Level → String
word level_debug = "debug"
word level_info = "info"
word level_warn = "warn"
word level_error = "error"
