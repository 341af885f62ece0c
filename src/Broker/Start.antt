-- ===== src/Broker/Start.antt =====
-- The start of the process: `main` of cmd/kaged/main.go up to the accept loop, with the addresses
-- of internal/config/config.go and internal/metrics/metrics.go. What `os.Exit` ends is an error.
pub mod Configured
pub mod Hydrated
pub mod Started
use kage.Prelude.{ℕ, suc, Option, none, some, List, ◌∷◌, [], ◌++◌, Bytes}
use kage.Config.{Config, ConfigError}
use kage.Config.Load.{load}
use kage.Decimal.{digits}
use kage.Outcome.{Outcome, ok, err, panic}
use kage.Server.Hydrate.{HydrateError, hydrate}
use kage.Server.OffsetCache.{empty_cache}
use kage.Server.Run.{Handler}
use kage.Storage.Bufio.{Os, next}
use kage.Storage.BrokerStore.{BrokerStore, DirEntry, open_broker_store}
use kage.Storage.Error.{StorageError}
use kage.Storage.Segment.{SegmentConfig}
use kage.Storage.Store.{Dir}

-- "0.0.0.0:"
abbrev any_host : Bytes
any_host = b'0' ∷ b'.' ∷ b'0' ∷ b'.' ∷ b'0' ∷ b'.' ∷ b'0' ∷ b':' ∷ []

-- `Addr`; a port is not negative.
unfoldable pub addr : Config → Bytes
addr cfg = any_host ++ digits cfg.port

-- `MetricsAddr`; the sum does not wrap in an int.
unfoldable pub metrics_addr : ℕ → Bytes
metrics_addr broker_port = any_host ++ digits (suc broker_port)

pub data StartError : Type 0 where
  configuration : ConfigError → StartError
  directory : StartError
  storage : StorageError → StartError
  listener : StartError
  offsets : HydrateError → StartError

-- What the accept loop is given: the configuration, the handler, and the addresses of the two
-- servers.
pub record Process : Type 0 where
  pub cfg : Config
  pub handler : Handler
  pub address : Bytes
  pub metrics_address : Bytes

-- `NewHandler` makes an empty cache.
unfoldable pub new_handler : Bytes → BrokerStore → Handler
new_handler host bs = record { store = bs; offset_cache = empty_cache; host = host }

-- The configuration of the store.
abbrev pub segment_config : Config → SegmentConfig
segment_config cfg = record { max_size = cfg.max_segment_size; retention = cfg.log_retention }

unfoldable pub with_offsets :
    Config → Outcome HydrateError (Unit {0}) × Handler × Os → Outcome StartError Process × Os
with_offsets cfg (ok _, h, os) = (
  ok (record {
    cfg = cfg;
    handler = h;
    address = addr cfg;
    metrics_address = metrics_addr cfg.port;
  }),
  os,
)
with_offsets cfg (err e, h, os) = (err (offsets e), os)
with_offsets cfg (panic, h, os) = (panic, os)

-- From the call of Listen on, which has ended as the first argument says.
unfoldable pub with_listener :
    Option ℕ → Config → Bytes → BrokerStore → Os → Outcome StartError Process × Os
with_listener (some _) cfg host bs os = (err listener, os)
with_listener none cfg host bs os = with_offsets cfg (hydrate os (new_handler host bs))

unfoldable pub with_store :
    Config → Bytes → Outcome StorageError BrokerStore × Os → Outcome StartError Process × Os
with_store cfg host (ok bs, os) = let (o, os') = next os in with_listener o cfg host bs os'
with_store cfg host (err e, os) = (err (storage e), os)
with_store cfg host (panic, os) = (panic, os)

-- From MkdirAll on, over what the log directory then holds.
unfoldable pub with_directory :
    Option ℕ → Config → Bytes → (Bytes → Dir) → List DirEntry → Os → Outcome StartError Process × Os
with_directory (some _) cfg host disk entries os = (err directory, os)
with_directory none cfg host disk entries os =
    with_store cfg host (open_broker_store os disk entries (segment_config cfg))

unfoldable pub with_config :
    Outcome ConfigError Config
    → Bytes
    → (Bytes → Dir)
    → List DirEntry
    → Os
    → Outcome StartError Process × Os
with_config (ok cfg) host disk entries os =
    let (o, os') = next os in with_directory o cfg host disk entries os'
with_config (err e) host disk entries os = (err (configuration e), os)
with_config panic host disk entries os = (panic, os)

-- `file` and `order` are what `Load` takes, `disk` and `entries` what `OpenBrokerStore` takes.
unfoldable pub start_up :
    (Bytes → Option ℕ)
    → Option Bytes
    → List (Bytes × Bytes)
    → Bytes
    → (Bytes → Dir)
    → List DirEntry
    → Os
    → Outcome StartError Process × Os
start_up parse_duration file order host disk entries os =
    with_config (load parse_duration file order) host disk entries os
