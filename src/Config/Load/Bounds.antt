-- ===== src/Config/Load/Bounds.antt =====
-- The values that a configuration can hold.
use kage.Prelude.{
  false, ℕ, ◌^◌, ◌<◌, ◌≡◌, refl, sym, Option, none, some, List, [], ◌∷◌, arith, Bytes, bytes_eq,
  length, leb, ◌==◌,
}
use kage.Outcome.{Outcome, ok, err, panic, ◌>>=◌}
use kage.Config.{
  Config, ConfigError, defaults, parse_int, non_negative, apply_field, validate, key_port,
  key_log_directory, key_max_segment_size, key_worker_pool_size, key_shutdown_timeout,
  key_log_retention,
}
use kage.Config.Yaml.{key_value, trim_space, split_lines, apply_pair, apply_lines, parse_yaml}
use kage.Config.Load.{apply_var, apply_env, apply_file, load}
use kage.Config.Values.{Gives, >>=-Gives, if-Gives, Within, parse_int-Gives, non_negative-Gives}
use kage.Config.Valid.{
  IsValid, port-IsValid, log_directory-IsValid, max_segment_size-IsValid, worker_pool_size-IsValid,
  shutdown_timeout-IsValid, log_retention-IsValid,
}

defaults-IsValid : IsValid defaults
unfolding defaults
defaults-IsValid = record {
  port = (omega arith, omega arith);
  log_directory = omega arith;
  max_segment_size = (omega arith, omega arith);
  worker_pool_size = (omega arith, omega arith);
  shutdown_timeout = omega arith;
  log_retention = omega arith;
}

-- A field that is set to a number, and one that is set to a duration.
set_number-IsValid :
    (val : Bytes) (max : ℕ) (f : ℕ → Config)
    → max < 0x8000_0000_0000_0000
    → ((n : ℕ) → Within max n → IsValid (f n))
    → Gives IsValid (parse_int val 1 max >>= λ n. ok (f n))
set_number-IsValid val max f h k =
    >>=-Gives (Within max) IsValid (parse_int val 1 max) (λ n. ok (f n)) (parse_int-Gives val max h)
      k

set_duration-IsValid :
    (o : Option ℕ) (f : ℕ → Config)
    → ((d : ℕ) → d < 0x8000_0000_0000_0000 → IsValid (f d))
    → Gives IsValid (non_negative o >>= λ d. ok (f d))
set_duration-IsValid o f k =
    >>=-Gives (λ d. d < 0x8000_0000_0000_0000) IsValid (non_negative o) (λ d. ok (f d))
      (non_negative-Gives o) k

module _ (parse_duration : Bytes → Option ℕ) where
  apply_field-IsValid :
      (cfg : Config) (key val : Bytes)
      → IsValid cfg
      → Gives IsValid (apply_field parse_duration cfg key val)
  unfolding apply_field
  apply_field-IsValid cfg key val v =
      let port =
        set_number-IsValid val 65535 (λ n. record cfg { port = n }) (omega arith)
          (port-IsValid cfg v) in
      let log_directory =
        λ (e : (length val == 0) ≡ false). log_directory-IsValid cfg v val (ground arith) in
      let max_segment_size =
        set_number-IsValid val (2 ^ 40) (λ n. record cfg { max_segment_size = n }) (omega arith)
          (max_segment_size-IsValid cfg v) in
      let worker_pool_size =
        set_number-IsValid val (2 ^ 20) (λ n. record cfg { worker_pool_size = n }) (omega arith)
          (worker_pool_size-IsValid cfg v) in
      let shutdown_timeout =
        set_duration-IsValid (parse_duration val) (λ d. record cfg { shutdown_timeout = d })
          (shutdown_timeout-IsValid cfg v) in
      let log_retention =
        set_duration-IsValid (parse_duration val) (λ d. record cfg { log_retention = d })
          (log_retention-IsValid cfg v) in
      if-Gives IsValid (bytes_eq key key_port) _ _ (λ e. port)
        (λ e.
          if-Gives IsValid (bytes_eq key key_log_directory) _ _
            (λ e. if-Gives IsValid (length val == 0) _ _ (λ e'. tt) (λ e'. log_directory e'))
            (λ e.
              if-Gives IsValid (bytes_eq key key_max_segment_size) _ _ (λ e. max_segment_size)
                (λ e.
                  if-Gives IsValid (bytes_eq key key_worker_pool_size) _ _ (λ e. worker_pool_size)
                    (λ e.
                      if-Gives IsValid (bytes_eq key key_shutdown_timeout) _ _
                        (λ e. shutdown_timeout)
                        (λ e.
                          if-Gives IsValid (bytes_eq key key_log_retention) _ _ (λ e. log_retention)
                            (λ e. v))))))

  apply_pair-IsValid :
      (cfg : Config) (pair : Option (Bytes × Bytes))
      → IsValid cfg
      → Gives IsValid (apply_pair parse_duration cfg pair)
  unfolding apply_pair
  apply_pair-IsValid cfg none v = v
  apply_pair-IsValid cfg (some (key, val)) v = apply_field-IsValid cfg key val v

  apply_lines-IsValid :
      (lines : List Bytes) (cfg : Config)
      → IsValid cfg
      → Gives IsValid (apply_lines parse_duration lines cfg)
  unfolding apply_lines
  apply_lines-IsValid [] cfg v = v
  apply_lines-IsValid (line ∷ lines) cfg v =
      if-Gives IsValid (leb 65536 (length line)) _ _ (λ e. tt)
        (λ e.
          >>=-Gives IsValid IsValid (apply_pair parse_duration cfg (key_value (trim_space line))) _
            (apply_pair-IsValid cfg (key_value (trim_space line)) v) (apply_lines-IsValid lines))

  apply_file-IsValid :
      (file : Option Bytes) (cfg : Config)
      → IsValid cfg
      → Gives IsValid (apply_file parse_duration file cfg)
  unfolding apply_file parse_yaml
  apply_file-IsValid none cfg v = v
  apply_file-IsValid (some text) cfg v = apply_lines-IsValid (split_lines text) cfg v

  apply_var-IsValid :
      (cfg : Config) (key val : Bytes)
      → IsValid cfg
      → Gives IsValid (apply_var parse_duration cfg key val)
  unfolding apply_var
  apply_var-IsValid cfg key val v =
      if-Gives IsValid (length val == 0) _ _ (λ e. v) (λ e. apply_field-IsValid cfg key val v)

  apply_env-IsValid :
      (order : List (Bytes × Bytes)) (cfg : Config)
      → IsValid cfg
      → Gives IsValid (apply_env parse_duration order cfg)
  unfolding apply_env
  apply_env-IsValid [] cfg v = v
  apply_env-IsValid ((key, val) ∷ rest) cfg v =
      >>=-Gives IsValid IsValid (apply_var parse_duration cfg key val) _
        (apply_var-IsValid cfg key val v) (apply_env-IsValid rest)

-- `validate` finds nothing to say against a configuration whose fields are in their bounds.
validate-IsValid : (cfg : Config) → IsValid cfg → validate cfg ≡ ok tt
unfolding validate
validate-IsValid cfg v =
    ground
      (arith, v.port, v.log_directory, v.max_segment_size, v.worker_pool_size, v.shutdown_timeout)

-- The two steps before `validate`.
unfoldable pub overlaid :
    (Bytes → Option ℕ) → Option Bytes → List (Bytes × Bytes) → Outcome ConfigError Config
overlaid parse_duration file order = do
  cfg ← apply_file parse_duration file defaults
  apply_env parse_duration order cfg

overlaid-IsValid :
    (parse_duration : Bytes → Option ℕ) (file : Option Bytes) (order : List (Bytes × Bytes))
    → Gives IsValid (overlaid parse_duration file order)
unfolding overlaid
overlaid-IsValid parse_duration file order =
    >>=-Gives IsValid IsValid (apply_file parse_duration file defaults) _
      (apply_file-IsValid parse_duration file defaults defaults-IsValid)
      (apply_env-IsValid parse_duration order)

check_same :
    (o : Outcome ConfigError Config)
    → Gives IsValid o
    → (o >>= λ cfg. validate cfg >>= λ _. ok cfg) ≡ o
check_same (ok cfg) v = rw (validate-IsValid cfg v)
check_same (err e) v = refl
check_same panic v = refl

load_from :
    (parse_duration : Bytes → Option ℕ) (order : List (Bytes × Bytes))
    (o : Outcome ConfigError Config)
    → Gives IsValid o
    → (o >>= λ cfg. apply_env parse_duration order cfg >>= λ cfg'. validate cfg' >>= λ _. ok cfg')
      ≡ (o >>= λ cfg. apply_env parse_duration order cfg)
load_from parse_duration order (ok cfg) v =
    check_same (apply_env parse_duration order cfg) (apply_env-IsValid parse_duration order cfg v)
load_from parse_duration order (err e) v = refl
load_from parse_duration order panic v = refl

-- `validate` never refuses what the file and the environment have made of the defaults.
pub load-overlaid :
    (parse_duration : Bytes → Option ℕ) (file : Option Bytes) (order : List (Bytes × Bytes))
    → load parse_duration file order ≡ overlaid parse_duration file order
unfolding load overlaid
load-overlaid parse_duration file order =
    load_from parse_duration order (apply_file parse_duration file defaults)
      (apply_file-IsValid parse_duration file defaults defaults-IsValid)

-- A configuration that Load returns, whatever the file holds, whatever the variables are and in
-- whatever order they are taken, and whatever texts are taken for durations, has every field in its
-- bounds: a port from 1 to 65535, a log directory, a segment size of 1 to 2 ^ 40 bytes, a pool of 1
-- to 2 ^ 20 workers, and durations that are not negative.
pub load-IsValid :
    (parse_duration : Bytes → Option ℕ) (file : Option Bytes) (order : List (Bytes × Bytes))
    (cfg : Config)
    → load parse_duration file order ≡ ok cfg
    → IsValid cfg
load-IsValid parse_duration file order cfg e =
    let x : Gives IsValid (ok cfg) =
      rw (sym (load-overlaid parse_duration file order), e) at
        (overlaid-IsValid parse_duration file order) in
    x
