-- ===== src/Config/Valid.antt =====
-- The bounds of the fields of a configuration, and what setting one field makes of them.
use kage.Prelude.{ℕ, ◌^◌, ◌≤◌, ◌<◌, Bytes, length}
use kage.Config.{Config}

pub record IsValid (cfg : Config) : Type 0 where
  pub port : (1 ≤ cfg.port) × (cfg.port ≤ 65535)
  pub log_directory : 1 ≤ length cfg.log_directory
  pub max_segment_size : (1 ≤ cfg.max_segment_size) × (cfg.max_segment_size ≤ 2 ^ 40)
  pub worker_pool_size : (1 ≤ cfg.worker_pool_size) × (cfg.worker_pool_size ≤ 2 ^ 20)
  pub shutdown_timeout : cfg.shutdown_timeout < 0x8000_0000_0000_0000
  pub log_retention : cfg.log_retention < 0x8000_0000_0000_0000

module _ (cfg : Config) (v : IsValid cfg) where
  pub port-IsValid : (x : ℕ) → (1 ≤ x) × (x ≤ 65535) → IsValid (record cfg { port = x })
  port-IsValid x p = record {
    port = p;
    log_directory = v.log_directory;
    max_segment_size = v.max_segment_size;
    worker_pool_size = v.worker_pool_size;
    shutdown_timeout = v.shutdown_timeout;
    log_retention = v.log_retention;
  }

  pub log_directory-IsValid :
      (x : Bytes) → 1 ≤ length x → IsValid (record cfg { log_directory = x })
  log_directory-IsValid x p = record {
    port = v.port;
    log_directory = p;
    max_segment_size = v.max_segment_size;
    worker_pool_size = v.worker_pool_size;
    shutdown_timeout = v.shutdown_timeout;
    log_retention = v.log_retention;
  }

  pub max_segment_size-IsValid :
      (x : ℕ) → (1 ≤ x) × (x ≤ 2 ^ 40) → IsValid (record cfg { max_segment_size = x })
  max_segment_size-IsValid x p = record {
    port = v.port;
    log_directory = v.log_directory;
    max_segment_size = p;
    worker_pool_size = v.worker_pool_size;
    shutdown_timeout = v.shutdown_timeout;
    log_retention = v.log_retention;
  }

  pub worker_pool_size-IsValid :
      (x : ℕ) → (1 ≤ x) × (x ≤ 2 ^ 20) → IsValid (record cfg { worker_pool_size = x })
  worker_pool_size-IsValid x p = record {
    port = v.port;
    log_directory = v.log_directory;
    max_segment_size = v.max_segment_size;
    worker_pool_size = p;
    shutdown_timeout = v.shutdown_timeout;
    log_retention = v.log_retention;
  }

  pub shutdown_timeout-IsValid :
      (x : ℕ) → x < 0x8000_0000_0000_0000 → IsValid (record cfg { shutdown_timeout = x })
  shutdown_timeout-IsValid x p = record {
    port = v.port;
    log_directory = v.log_directory;
    max_segment_size = v.max_segment_size;
    worker_pool_size = v.worker_pool_size;
    shutdown_timeout = p;
    log_retention = v.log_retention;
  }

  pub log_retention-IsValid :
      (x : ℕ) → x < 0x8000_0000_0000_0000 → IsValid (record cfg { log_retention = x })
  log_retention-IsValid x p = record {
    port = v.port;
    log_directory = v.log_directory;
    max_segment_size = v.max_segment_size;
    worker_pool_size = v.worker_pool_size;
    shutdown_timeout = v.shutdown_timeout;
    log_retention = p;
  }
