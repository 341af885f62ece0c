-- ===== src/Config.antt =====
-- internal/config/config.go: the configuration of the broker, and how one field of it is set.
-- `time.ParseDuration` is a parameter, `parse_duration`: the nanoseconds as an int64, if the text is
-- a duration. The texts of the errors are left out.
pub mod Values
pub mod Valid
pub mod Yaml
pub mod Load
use kage.Prelude.{
  ℕ, ◌+◌, ◌-◌, ◌%◌, ◌^◌, ◌||◌, Option, none, some, List, [], ◌∷◌, Bytes, bytes_eq, length, ltb, leb,
  slt64, is_neg64, ◌==◌, if◌then◌else◌,
}
use kage.Outcome.{Outcome, ok, err, panic, ◌>>=◌}
use kage.Decimal.{parse_digits}

-- The durations are in nanoseconds.
pub record Config : Type 0 where
  pub port : ℕ
  pub log_directory : Bytes
  pub max_segment_size : ℕ
  pub worker_pool_size : ℕ
  pub shutdown_timeout : ℕ
  pub log_retention : ℕ

pub data ConfigError : Type 0 where
  not_an_integer : ConfigError
  out_of_range : ConfigError
  empty : ConfigError
  invalid_duration : ConfigError
  negative : ConfigError
  too_small : ConfigError
  line_too_long : ConfigError

-- "/data"
abbrev default_log_directory : Bytes
default_log_directory = b'/' ∷ b'd' ∷ b'a' ∷ b't' ∷ b'a' ∷ []

unfoldable pub defaults : Config
defaults = record {
  port = 9092;
  log_directory = default_log_directory;
  max_segment_size = 0x4000_0000;
  worker_pool_size = 10_000;
  shutdown_timeout = 10_000_000_000;
  log_retention = 604_800_000_000_000;
}

-- "port"
abbrev pub key_port : Bytes
key_port = b'p' ∷ b'o' ∷ b'r' ∷ b't' ∷ []

-- "log_directory"
abbrev pub key_log_directory : Bytes
key_log_directory =
    b'l' ∷ b'o' ∷ b'g' ∷ b'_' ∷ b'd' ∷ b'i' ∷ b'r' ∷ b'e' ∷ b'c' ∷ b't' ∷ b'o' ∷ b'r' ∷ b'y' ∷ []

-- "max_segment_size"
abbrev pub key_max_segment_size : Bytes
key_max_segment_size =
    b'm' ∷ b'a' ∷ b'x' ∷ b'_' ∷ b's' ∷ b'e' ∷ b'g' ∷ b'm' ∷ b'e' ∷ b'n' ∷ b't' ∷ b'_' ∷ b's' ∷ b'i'
    ∷ b'z' ∷ b'e' ∷ []

-- "worker_pool_size"
abbrev pub key_worker_pool_size : Bytes
key_worker_pool_size =
    b'w' ∷ b'o' ∷ b'r' ∷ b'k' ∷ b'e' ∷ b'r' ∷ b'_' ∷ b'p' ∷ b'o' ∷ b'o' ∷ b'l' ∷ b'_' ∷ b's' ∷ b'i'
    ∷ b'z' ∷ b'e' ∷ []

-- "shutdown_timeout"
abbrev pub key_shutdown_timeout : Bytes
key_shutdown_timeout =
    b's' ∷ b'h' ∷ b'u' ∷ b't' ∷ b'd' ∷ b'o' ∷ b'w' ∷ b'n' ∷ b'_' ∷ b't' ∷ b'i' ∷ b'm' ∷ b'e' ∷ b'o'
    ∷ b'u' ∷ b't' ∷ []

-- "log_retention"
abbrev pub key_log_retention : Bytes
key_log_retention =
    b'l' ∷ b'o' ∷ b'g' ∷ b'_' ∷ b'r' ∷ b'e' ∷ b't' ∷ b'e' ∷ b'n' ∷ b't' ∷ b'i' ∷ b'o' ∷ b'n' ∷ []

-- strconv.ParseInt(s, 10, 64): a sign, then digits; the result is the pattern of an int64.
unfoldable pub positive : Option ℕ → Option ℕ
positive none = none
positive (some n) = if ltb n 0x8000_0000_0000_0000 then some n else none

unfoldable pub negated : Option ℕ → Option ℕ
negated none = none
negated (some n) =
    if leb n 0x8000_0000_0000_0000
    then some ((0x1_0000_0000_0000_0000 - n) % 0x1_0000_0000_0000_0000)
    else none

unfoldable pub parse_int64 : Bytes → Option ℕ
parse_int64 [] = none
parse_int64 (c ∷ cs) =
    if c == b'-'
    then negated (parse_digits cs)
    else if c == b'+'
    then positive (parse_digits cs)
    else positive (parse_digits (c ∷ cs))

-- `parseInt`, from where ParseInt has returned.
unfoldable pub in_bounds : ℕ → ℕ → Option ℕ → Outcome ConfigError ℕ
in_bounds min max none = err not_an_integer
in_bounds min max (some n) = if slt64 n min || slt64 max n then err out_of_range else ok n

unfoldable pub parse_int : Bytes → ℕ → ℕ → Outcome ConfigError ℕ
parse_int s min max = in_bounds min max (parse_int64 s)

-- A duration that may be set.
unfoldable pub non_negative : Option ℕ → Outcome ConfigError ℕ
non_negative none = err invalid_duration
non_negative (some d) = if is_neg64 d then err negative else ok d

unfoldable pub apply_field :
    (Bytes → Option ℕ) → Config → Bytes → Bytes → Outcome ConfigError Config
apply_field parse_duration cfg key val =
    if bytes_eq key key_port
    then (do n ← parse_int val 1 65535; ok (record cfg { port = n }))
    else if bytes_eq key key_log_directory
    then (if length val == 0 then err empty else ok (record cfg { log_directory = val }))
    else if bytes_eq key key_max_segment_size
    then (do n ← parse_int val 1 (2 ^ 40); ok (record cfg { max_segment_size = n }))
    else if bytes_eq key key_worker_pool_size
    then (do n ← parse_int val 1 (2 ^ 20); ok (record cfg { worker_pool_size = n }))
    else if bytes_eq key key_shutdown_timeout
    then (do d ← non_negative (parse_duration val); ok (record cfg { shutdown_timeout = d }))
    else if bytes_eq key key_log_retention
    then (do d ← non_negative (parse_duration val); ok (record cfg { log_retention = d }))
    else ok cfg

-- The test of a field: below the least value, as an int64.
unfoldable pub validate : Config → Outcome ConfigError (Unit {0})
validate cfg =
    if slt64 cfg.port 1 || slt64 65535 cfg.port
    then err out_of_range
    else if length cfg.log_directory == 0
    then err empty
    else if slt64 cfg.max_segment_size 1
    then err too_small
    else if slt64 cfg.worker_pool_size 1
    then err too_small
    else if is_neg64 cfg.shutdown_timeout
    then err negative
    else ok tt
