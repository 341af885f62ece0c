-- ===== src/Config/Load/Priority.antt =====
-- The environment wins over the file.
use kage.Prelude.{
  ℕ, ◌^◌, ◌≤◌, ◌≡◌, refl, sym, ◌∙◌, arith, false, Option, none, some, Bytes, bytes_eq, length, ◌==◌,
}
use kage.Outcome.{Outcome, ok, err, panic, ◌>>=◌}
use kage.Config.{Config, ConfigError, defaults, parse_int, non_negative, apply_field}
use kage.Config.Load.{Env, vars, apply_var, apply_env, apply_file, load}
use kage.Config.Load.Bounds.{overlaid, load-overlaid}

-- Each variable is set.
pub record AllSet (env : Env) : Type 0 where
  pub port : 1 ≤ length env.port
  pub log_directory : 1 ≤ length env.log_directory
  pub max_segment_size : 1 ≤ length env.max_segment_size
  pub worker_pool_size : 1 ≤ length env.worker_pool_size
  pub shutdown_timeout : 1 ≤ length env.shutdown_timeout
  pub log_retention : 1 ≤ length env.log_retention

-- The six fields set one after the other.
abbrev set_all :
    Outcome ConfigError ℕ
    → Bytes
    → Outcome ConfigError ℕ
    → Outcome ConfigError ℕ
    → Outcome ConfigError ℕ
    → Outcome ConfigError ℕ
    → Config
    → Outcome ConfigError Config
set_all a dir b c d e cfg = do
  cfg ← (do n ← a; ok (record cfg { port = n }))
  cfg ← ok (record cfg { log_directory = dir })
  cfg ← (do n ← b; ok (record cfg { max_segment_size = n }))
  cfg ← (do n ← c; ok (record cfg { worker_pool_size = n }))
  cfg ← (do n ← d; ok (record cfg { shutdown_timeout = n }))
  cfg ← (do n ← e; ok (record cfg { log_retention = n }))
  ok cfg

set_all_same :
    (a : Outcome ConfigError ℕ) (dir : Bytes) (b c d e : Outcome ConfigError ℕ) (x y : Config)
    → set_all a dir b c d e x ≡ set_all a dir b c d e y
set_all_same (ok n) dir (ok m) (ok k) (ok d) (ok r) x y = refl
set_all_same (ok n) dir (ok m) (ok k) (ok d) (err f) x y = refl
set_all_same (ok n) dir (ok m) (ok k) (ok d) panic x y = refl
set_all_same (ok n) dir (ok m) (ok k) (err f) e x y = refl
set_all_same (ok n) dir (ok m) (ok k) panic e x y = refl
set_all_same (ok n) dir (ok m) (err f) d e x y = refl
set_all_same (ok n) dir (ok m) panic d e x y = refl
set_all_same (ok n) dir (err f) c d e x y = refl
set_all_same (ok n) dir panic c d e x y = refl
set_all_same (err f) dir b c d e x y = refl
set_all_same panic dir b c d e x y = refl

apply_env-set_all :
    (parse_duration : Bytes → Option ℕ) (env : Env) (cfg : Config)
    → AllSet env
    → apply_env parse_duration (vars env) cfg
      ≡ set_all
          (parse_int env.port 1 65535)
          env.log_directory
          (parse_int env.max_segment_size 1 (2 ^ 40))
          (parse_int env.worker_pool_size 1 (2 ^ 20))
          (non_negative (parse_duration env.shutdown_timeout))
          (non_negative (parse_duration env.log_retention))
          cfg
unfolding apply_env vars apply_var apply_field parse_int bytes_eq
apply_env-set_all parse_duration env cfg s =
    let a : (length env.port == 0) ≡ false = ground (arith, s.port) in
    let b : (length env.log_directory == 0) ≡ false = ground (arith, s.log_directory) in
    let c : (length env.max_segment_size == 0) ≡ false = ground (arith, s.max_segment_size) in
    let d : (length env.worker_pool_size == 0) ≡ false = ground (arith, s.worker_pool_size) in
    let e : (length env.shutdown_timeout == 0) ≡ false = ground (arith, s.shutdown_timeout) in
    let f : (length env.log_retention == 0) ≡ false = ground (arith, s.log_retention) in
    simp (a, b, c, d, e, f) refl

same_env :
    (parse_duration : Bytes → Option ℕ) (env : Env) (x y : Config)
    → AllSet env
    → apply_env parse_duration (vars env) x ≡ apply_env parse_duration (vars env) y
same_env parse_duration env x y s =
    apply_env-set_all parse_duration env x s
    ∙ set_all_same (parse_int env.port 1 65535) env.log_directory
        (parse_int env.max_segment_size 1 (2 ^ 40)) (parse_int env.worker_pool_size 1 (2 ^ 20))
        (non_negative (parse_duration env.shutdown_timeout))
        (non_negative (parse_duration env.log_retention)) x y
    ∙ sym (apply_env-set_all parse_duration env y s)

forget_file :
    (parse_duration : Bytes → Option ℕ) (env : Env) (cfg : Config) (o : Outcome ConfigError Config)
    → AllSet env
    → (o >>= λ c. apply_env parse_duration (vars env) c) ≡ ok cfg
    → apply_env parse_duration (vars env) defaults ≡ ok cfg
forget_file parse_duration env cfg (ok c) s e = same_env parse_duration env defaults c s ∙ e
forget_file parse_duration env cfg (err f) s e = absurd cc
forget_file parse_duration env cfg panic s e = absurd cc

-- If every variable is set, the file has no say in what Load returns: the configuration that it
-- returns with a file is the one that it returns without, the variables taken in the order of the
-- list in both.
pub load-AllSet :
    (parse_duration : Bytes → Option ℕ) (text : Bytes) (env : Env) (cfg : Config)
    → AllSet env
    → load parse_duration (some text) (vars env) ≡ ok cfg
    → load parse_duration none (vars env) ≡ ok cfg
unfolding overlaid apply_file
load-AllSet parse_duration text env cfg s e =
    load-overlaid parse_duration none (vars env)
    ∙ forget_file parse_duration env cfg (apply_file parse_duration (some text) defaults) s
        (sym (load-overlaid parse_duration (some text) (vars env)) ∙ e)
