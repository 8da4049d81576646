-- ===== src/Logging.antt =====
-- pkg/logging/logger.go: the level and the format of a logger. strings.ToLower is a parameter.
use try_it_now.Base.{String, ◌≡◌, refl, str_eq, if◌then◌else◌, ◌||◌}
use try_it_now.Config.{Environment, get_env, load}

pub data Level : Type 0 where
  debug info warn error : Level

pub data Format : Type 0 where
  json text : Format

pub record Logger : Type 0 where
  pub level : Level
  pub format : Format

-- A setting that is not there has its default.
get_env-unset :
    {F : Type 0} (env : Environment F) (key default : String)
    → env.getenv key ≡ ""
    → get_env env key default ≡ default
unfolding get_env
get_env-unset env key default e = rw e refl

module _ (to_lower : String → String) where
  abbrev pub level_of : String → Level
  level_of level =
      let name = to_lower level in
      if str_eq name "debug"
      then debug
      else if str_eq name "warn" || str_eq name "warning"
      then warn
      else if str_eq name "error"
      then error
      else info

  abbrev pub format_of : String → Format
  format_of format = if str_eq (to_lower format) "text" then text else json

  -- New
  unfoldable pub new_logger : String → String → Logger
  new_logger level format = record { level = level_of level; format = format_of format }

  -- Default
  unfoldable pub default_logger : Logger
  unfolding new_logger
  default_logger = new_logger "info" "json"

  -- With neither LOG_LEVEL nor LOG_FORMAT set, the configured logger is the default one.
  new_logger-load :
      {F : Type 0} (env : Environment F)
      → env.getenv "LOG_LEVEL" ≡ ""
      → env.getenv "LOG_FORMAT" ≡ ""
      → new_logger (load env).log.level (load env).log.format ≡ default_logger
  unfolding default_logger load
  new_logger-load env l f =
      rw (get_env-unset env "LOG_LEVEL" "info" l, get_env-unset env "LOG_FORMAT" "json" f) refl
