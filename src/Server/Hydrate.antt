-- ===== src/Server/Hydrate.antt =====
-- `LoadOffsetsCache` of internal/server/handler.go, which the process calls before it accepts
-- connections: the window of the offsets log that it reads, and the loop over it.
pub mod Restart
pub mod Durable
use kage.Prelude.{ℕ, ◌%◌, Bytes, take, drop, slt64, ◌==◌, if◌then◌else◌}
use kage.Outcome.{Outcome, ok, err, panic}
use kage.Protocol.Messages.Constants.{consumer_offsets_topic}
use kage.Server.OffsetCache.{LoadError, Reader, Loaded, load_offsets_cache}
use kage.Server.Run.{Handler}
use kage.Storage.Error.{StorageError}
use kage.Storage.Bufio.{Os}
use kage.Storage.Segment.{Segment, Section}
use kage.Storage.Store
use kage.Storage.Store.{PartitionStore}
use kage.Storage.BrokerStore.{BrokerStore, partition_key, put_store, get_or_create_partition}

pub data HydrateError : Type 0 where
  storage : StorageError → HydrateError
  loading : LoadError → HydrateError

-- The reader of a section of the segment's file.
unfoldable pub section_reader : Segment → Section → Reader
section_reader s r = record { is_open = s.bw.is_open; rest = take r.size (drop r.offset s.bw.file) }

-- `size` as an int32, or the greatest one.
unfoldable pub window_size : ℕ → ℕ
window_size size = if slt64 0x7fff_ffff size then 0x7fff_ffff else size % 0x1_0000_0000

-- What the loop has made of the cache; after an error, too, it keeps what has been loaded.
unfoldable pub hydrated : Handler → Loaded → Outcome HydrateError (Unit {0}) × Handler × Os
hydrated h (ok _, cache, os) = (ok tt, record h { offset_cache = cache }, os)
hydrated h (err e, cache, os) = (err (loading e), record h { offset_cache = cache }, os)
hydrated h (panic, cache, os) = (panic, record h { offset_cache = cache }, os)

-- What follows the read of the store, which goes back into the map as the read has changed it.
unfoldable pub hydrate_read :
    Handler
    → BrokerStore
    → Outcome StorageError (Section × ℕ) × PartitionStore × Os
    → Outcome HydrateError (Unit {0}) × Handler × Os
hydrate_read h bs (r, ps, os) =
    let stores = put_store (partition_key consumer_offsets_topic 0) ps bs.stores in
    let h' = record h { store = record bs { stores = stores } } in
    elim r [
      | ok (section, _) ↦
          hydrated h' (load_offsets_cache os (section_reader ps.active section) h.offset_cache)
      | err e ↦ (err (storage e), h', os)
      | panic ↦ (panic, h', os)
    ]

-- What follows the look at the map; an empty log is not read.
unfoldable pub hydrate_obtained :
    Handler
    → Outcome StorageError PartitionStore × BrokerStore × Os
    → Outcome HydrateError (Unit {0}) × Handler × Os
hydrate_obtained h (ok ps, bs, os) =
    let size = Store.size ps in
    if size == 0
    then (ok tt, record h { store = bs }, os)
    else hydrate_read h bs (Store.read os ps 0 (window_size size))
hydrate_obtained h (err e, bs, os) = (err (storage e), record h { store = bs }, os)
hydrate_obtained h (panic, bs, os) = (panic, record h { store = bs }, os)

unfoldable pub hydrate : Os → Handler → Outcome HydrateError (Unit {0}) × Handler × Os
hydrate os h = hydrate_obtained h (get_or_create_partition os h.store consumer_offsets_topic 0)
