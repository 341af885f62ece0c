-- ===== src/Broker/Start/Started.antt =====
-- What the process has when its start succeeds.
use kage.Prelude.{
  ℕ, suc, ◌≡◌, ◌≢◌, refl, sym, ap, ◌∙◌, Option, none, some, List, arith, Bytes, drop,
}
use kage.Outcome.{Outcome, ok, err, panic}
use kage.Broker.Start.{
  StartError, Process, addr, metrics_addr, new_handler, segment_config, with_offsets, with_listener,
  with_store, with_directory, with_config, start_up,
}
use kage.Broker.Start.Configured.{IsSize, IsConfigured, BrokerHas, open_broker_store-BrokerHas}
use kage.Config.{Config, ConfigError}
use kage.Config.Load.{load}
use kage.Config.Load.Bounds.{load-IsValid}
use kage.Config.Valid.{IsValid}
use kage.Decimal.{parse_digits}
use kage.Decimal.RoundTrip.{parse_digits-digits}
use kage.Server.Hydrate.{HydrateError, hydrate}
use kage.Server.Run.{Handler}
use kage.Storage.Bufio.{Os, next}
use kage.Storage.BrokerStore.{BrokerStore, DirEntry, open_broker_store}
use kage.Storage.Error.{StorageError}
use kage.Storage.Store.{Dir}
use kage.Broker.Start.Hydrated.{hydrate-After}

-- The broker and its metrics never listen at the same address.
addr-ne-metrics_addr : (cfg : Config) → addr cfg ≢ metrics_addr cfg.port
unfolding addr metrics_addr
addr-ne-metrics_addr cfg e =
    let same : some cfg.port ≡ some (suc cfg.port) =
      sym (parse_digits-digits cfg.port)
      ∙ ap (λ b. parse_digits (drop 8 b)) e
      ∙ parse_digits-digits (suc cfg.port) in
    let same' : cfg.port ≡ suc cfg.port = ground arith in omega (arith, same')

-- What a process that has started has.
pub record IsStarted (p : Process) : Type 0 where
  pub valid : IsValid p.cfg
  pub stores : IsConfigured (segment_config p.cfg) p.handler.store
  pub apart : p.address ≢ p.metrics_address

-- The outcome of the start.
abbrev Starts : Outcome StartError Process → Type 0
Starts (ok p) = IsStarted p
Starts (err _) = Unit {0}
Starts panic = Unit {0}

IsValid-IsSize : (cfg : Config) → IsValid cfg → IsSize (segment_config cfg)
IsValid-IsSize cfg v =
    let size = v.max_segment_size in (omega (arith, size.0), omega (arith, size.1))

module _ (cfg : Config) (v : IsValid cfg) where
  with_offsets-Starts :
      (a : Outcome HydrateError (Unit {0}) × Handler × Os)
      → IsConfigured (segment_config cfg) a.1.store
      → Starts (with_offsets cfg a).0
  unfolding with_offsets
  with_offsets-Starts (ok _, h, os) c = record {
    valid = v;
    stores = c;
    apart = addr-ne-metrics_addr cfg;
  }
  with_offsets-Starts (err _, h, os) c = tt
  with_offsets-Starts (panic, h, os) c = tt

  with_listener-Starts :
      (o : Option ℕ) (host : Bytes) (bs : BrokerStore) (os : Os)
      → IsConfigured (segment_config cfg) bs
      → Starts (with_listener o cfg host bs os).0
  unfolding with_listener new_handler
  with_listener-Starts (some _) host bs os c = tt
  with_listener-Starts none host bs os c =
      with_offsets-Starts (hydrate os (new_handler host bs))
        (hydrate-After (segment_config cfg) os (new_handler host bs) (IsValid-IsSize cfg v) c)

  with_store-Starts :
      (host : Bytes) (r : Outcome StorageError BrokerStore) (os : Os)
      → BrokerHas (segment_config cfg) (IsValid-IsSize cfg v) r
      → Starts (with_store cfg host (r, os)).0
  unfolding with_store
  with_store-Starts host (ok bs) os c = with_listener-Starts (next os).0 host bs (next os).1 c
  with_store-Starts host (err _) os c = tt
  with_store-Starts host panic os c = tt

  with_directory-Starts :
      (o : Option ℕ) (host : Bytes) (disk : Bytes → Dir) (entries : List DirEntry) (os : Os)
      → Starts (with_directory o cfg host disk entries os).0
  unfolding with_directory
  with_directory-Starts (some _) host disk entries os = tt
  with_directory-Starts none host disk entries os =
      let (r, os') = open_broker_store os disk entries (segment_config cfg) in
      with_store-Starts host r os'
        (open_broker_store-BrokerHas (segment_config cfg) (IsValid-IsSize cfg v) os disk entries)

with_config-Starts :
    (o : Outcome ConfigError Config) (host : Bytes) (disk : Bytes → Dir) (entries : List DirEntry)
    (os : Os)
    → ((cfg : Config) → o ≡ ok cfg → IsValid cfg)
    → Starts (with_config o host disk entries os).0
unfolding with_config
with_config-Starts (ok cfg) host disk entries os valid =
    with_directory-Starts cfg (valid cfg refl) (next os).0 host disk entries (next os).1
with_config-Starts (err _) host disk entries os valid = tt
with_config-Starts panic host disk entries os valid = tt

-- A process that comes through its start, whatever its configuration says, whatever is on the disk
-- and whatever the system calls do, has a configuration in its bounds, every store in its map has
-- that configuration and an active segment with exactly the configured size as its limit, and its
-- two servers listen at different addresses.
pub start_up-IsStarted :
    (parse_duration : Bytes → Option ℕ) (file : Option Bytes) (order : List (Bytes × Bytes))
    (host : Bytes) (disk : Bytes → Dir) (entries : List DirEntry) (os : Os) (p : Process)
    → (start_up parse_duration file order host disk entries os).0 ≡ ok p
    → IsStarted p
unfolding start_up
start_up-IsStarted parse_duration file order host disk entries os p e =
    let x : Starts (ok p) = rw e at (
      with_config-Starts (load parse_duration file order) host disk entries os
        (load-IsValid parse_duration file order)) in
    x
