-- ===== src/Tests/ProcessTests.antt =====
-- Runs of internal/config/config.go and of the accept loop of cmd/kaged/main.go on concrete data.
use kage.Prelude.{ℕ, ◌≡◌, refl, Option, none, some, [], ◌∷◌, arith, Bytes, bytes_eq}
use kage.Outcome.{ok, err}
use kage.Decimal
use kage.Config.{Config, ConfigError, defaults, key_port, not_an_integer}
use kage.Config
use kage.Config.Yaml
use kage.Config.Load
use kage.Config.Load.{Env, vars, load}
use kage.Config.Load.Bounds.{load-IsValid}
use kage.Config.Valid.{IsValid}
use kage.Config.Load.Priority.{AllSet, load-AllSet}
use kage.Broker.{
  State, initial, accepting, acquired, serving, connect, start, step, step_in, act, accepted,
  connected, started, Reachable, at_start, by_step,
}
use kage.Broker.Pool.{IsBalanced, Reachable-IsBalanced}

abbrev one_second : Bytes → Option ℕ
one_second _ = some 1_000_000_000

-- A comment, and the line ` port : "9093"` with a carriage return.
abbrev text : Bytes
text =
    b'#' ∷ b'p' ∷ b':' ∷ b'0' ∷ 10 ∷ b' ' ∷ b'p' ∷ b'o' ∷ b'r' ∷ b't' ∷ b' ' ∷ b':' ∷ b' ' ∷ b'"'
    ∷ b'9' ∷ b'0' ∷ b'9' ∷ b'3' ∷ b'"' ∷ 13 ∷ 10 ∷ []

loaded : load one_second (some text) [] ≡ ok (record defaults { port = 9093 })
unfolding load Load.apply_file Load.apply_env Load.apply_var vars Yaml.parse_yaml Yaml.apply_lines
    Yaml.split_lines Yaml.add_byte Yaml.apply_pair Yaml.key_value Yaml.trim_space Yaml.reverse_onto
    Yaml.skip_spaces Yaml.space_width Yaml.space_width_back Yaml.cut_at Yaml.strip_quotes
    Yaml.strip_comment Config.apply_field bytes_eq Config.parse_int Config.in_bounds
    Config.parse_int64 Config.positive Config.non_negative Config.validate Decimal.parse_digits
    Decimal.parse_from defaults
loaded = refl

load-IsValid_example : IsValid (record defaults { port = 9093 })
load-IsValid_example =
    load-IsValid one_second (some text) [] (record defaults { port = 9093 }) loaded

-- A comment behind a quoted value keeps the quotes in the value.
abbrev quoted : Bytes
quoted = b'p' ∷ b'o' ∷ b'r' ∷ b't' ∷ b':' ∷ b'"' ∷ b'9' ∷ b'"' ∷ b'#' ∷ b'c' ∷ []

quotes_stay : load one_second (some quoted) [] ≡ err not_an_integer
unfolding load Load.apply_file Load.apply_env Load.apply_var vars Yaml.parse_yaml Yaml.apply_lines
    Yaml.split_lines Yaml.add_byte Yaml.apply_pair Yaml.key_value Yaml.trim_space Yaml.reverse_onto
    Yaml.skip_spaces Yaml.space_width Yaml.space_width_back Yaml.cut_at Yaml.strip_quotes
    Yaml.strip_comment Config.apply_field bytes_eq Config.parse_int Config.in_bounds
    Config.parse_int64 Config.positive Config.non_negative Config.validate Decimal.parse_digits
    Decimal.parse_from defaults
quotes_stay = refl

abbrev env : Env
env = record {
  port = b'8' ∷ [];
  log_directory = b'/' ∷ b'd' ∷ [];
  max_segment_size = b'9' ∷ b'9' ∷ [];
  worker_pool_size = b'2' ∷ [];
  shutdown_timeout = b'1' ∷ b's' ∷ [];
  log_retention = b'1' ∷ b's' ∷ [];
}

abbrev from_env : Config
from_env = record {
  port = 8;
  log_directory = b'/' ∷ b'd' ∷ [];
  max_segment_size = 99;
  worker_pool_size = 2;
  shutdown_timeout = 1_000_000_000;
  log_retention = 1_000_000_000;
}

env-AllSet : AllSet env
env-AllSet = record {
  port = omega arith;
  log_directory = omega arith;
  max_segment_size = omega arith;
  worker_pool_size = omega arith;
  shutdown_timeout = omega arith;
  log_retention = omega arith;
}

overridden : load one_second (some text) (vars env) ≡ ok from_env
unfolding load Load.apply_file Load.apply_env Load.apply_var vars Yaml.parse_yaml Yaml.apply_lines
    Yaml.split_lines Yaml.add_byte Yaml.apply_pair Yaml.key_value Yaml.trim_space Yaml.reverse_onto
    Yaml.skip_spaces Yaml.space_width Yaml.space_width_back Yaml.cut_at Yaml.strip_quotes
    Yaml.strip_comment Config.apply_field bytes_eq Config.parse_int Config.in_bounds
    Config.parse_int64 Config.positive Config.non_negative Config.validate Decimal.parse_digits
    Decimal.parse_from defaults
overridden = refl

load-AllSet_example : load one_second none (vars env) ≡ ok from_env
load-AllSet_example = load-AllSet one_second text env from_env env-AllSet overridden

-- One connection is handled, a second has its slot, with a pool of two.
abbrev busy : State
busy = record { phase = acquired; main = serving; sem = 2; wg = 1; handling = 1; leaving = 0 }

abbrev one : State
one = record { phase = acquired; main = serving; sem = 1; wg = 0; handling = 0; leaving = 0 }

abbrev two : State
two = record { phase = accepting; main = serving; sem = 1; wg = 1; handling = 1; leaving = 0 }

busy-Reachable : Reachable 2 busy
unfolding step step_in act accepted initial connected started
busy-Reachable =
    by_step connect two busy
      (by_step start one two (by_step connect initial one at_start refl) refl) refl

Reachable-IsBalanced_example : IsBalanced 2 busy
Reachable-IsBalanced_example = Reachable-IsBalanced 2 busy busy-Reachable
