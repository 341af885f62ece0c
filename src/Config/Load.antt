-- ===== src/Config/Load.antt =====
-- `Load` of internal/config/config.go: the defaults, then the file, then the environment.
pub mod Bounds
pub mod Priority
use kage.Prelude.{ℕ, Option, none, some, List, [], ◌∷◌, Bytes, length, ◌==◌, if◌then◌else◌}
use kage.Outcome.{Outcome, ok, err, panic, ◌>>=◌}
use kage.Config.{
  Config, ConfigError, defaults, apply_field, validate, key_port, key_log_directory,
  key_max_segment_size, key_worker_pool_size, key_shutdown_timeout, key_log_retention,
}
use kage.Config.Yaml.{parse_yaml}

-- What os.Getenv returns for the variables KAGE_PORT to KAGE_LOG_RETENTION; one that is not set
-- is empty.
pub record Env : Type 0 where
  pub port : Bytes
  pub log_directory : Bytes
  pub max_segment_size : Bytes
  pub worker_pool_size : Bytes
  pub shutdown_timeout : Bytes
  pub log_retention : Bytes

-- The variables by key, in one of the orders in which Go may walk through the map.
unfoldable pub vars : Env → List (Bytes × Bytes)
vars env =
    (key_port, env.port)
    ∷ (key_log_directory, env.log_directory)
    ∷ (key_max_segment_size, env.max_segment_size)
    ∷ (key_worker_pool_size, env.worker_pool_size)
    ∷ (key_shutdown_timeout, env.shutdown_timeout)
    ∷ (key_log_retention, env.log_retention)
    ∷ []

unfoldable pub apply_var : (Bytes → Option ℕ) → Config → Bytes → Bytes → Outcome ConfigError Config
apply_var parse_duration cfg key val =
    if length val == 0 then ok cfg else apply_field parse_duration cfg key val

-- The loop over the variables, in the order of the list.
unfoldable pub apply_env :
    (Bytes → Option ℕ) → List (Bytes × Bytes) → Config → Outcome ConfigError Config
apply_env parse_duration [] cfg = ok cfg
apply_env parse_duration ((key, val) ∷ rest) cfg = do
  cfg ← apply_var parse_duration cfg key val
  apply_env parse_duration rest cfg

-- A file that cannot be opened is passed over.
unfoldable pub apply_file : (Bytes → Option ℕ) → Option Bytes → Config → Outcome ConfigError Config
apply_file parse_duration none cfg = ok cfg
apply_file parse_duration (some text) cfg = parse_yaml parse_duration text cfg

-- `file` is what the file holds, if it can be opened, and `order` the variables in the order of the
-- loop.
unfoldable pub load :
    (Bytes → Option ℕ) → Option Bytes → List (Bytes × Bytes) → Outcome ConfigError Config
load parse_duration file order = do
  cfg ← apply_file parse_duration file defaults
  cfg ← apply_env parse_duration order cfg
  _ ← validate cfg
  ok cfg
