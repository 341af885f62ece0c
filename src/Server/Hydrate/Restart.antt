-- ===== src/Server/Hydrate/Restart.antt =====
-- A restart finds the commits of the offsets log.
use kage.Prelude.{
  ◌-◌, ◌<◌, ◌≡◌, refl, ap, ◌∙◌, true, false, some, List, [], arith, Bytes, take, drop, take_all,
  min, wire_all, ◌==◌,
}
use kage.Outcome.{ok}
use kage.Protocol.Messages.Constants.{consumer_offsets_topic}
use kage.Server.OffsetCache.{load_offsets_cache}
use kage.Server.OffsetCache.Replay.{reader, at_end, replay, load_offsets_cache-replay}
use kage.Server.OffsetCache.Safety.{replay_succeeds}
use kage.Server.Hydrate.{
  section_reader, window_size, hydrated, hydrate_read, hydrate_obtained, hydrate,
}
use kage.Server.Run.{Handler}
use kage.Storage.Bufio.Contents.{contents, flush_empties, flush_succeeds, is_open-flush}
use kage.Storage.BrokerStore.{partition_key, find_store}
use kage.Storage.BrokerStore.Stores.{get_or_create_partition-found}
use kage.Storage.Segment.Log.{IsLog, frame}
use kage.Storage.Store
use kage.Storage.Store.{PartitionStore}
use kage.Storage.Store.Window.{read-served}

module _ (h : Handler) (ps : PartitionStore) (rs : List Bytes)
    (found : find_store (partition_key consumer_offsets_topic 0) h.store.stores ≡ some ps)
    (log : IsLog ps.active rs) (is_open : ps.active.bw.is_open ≡ true)
    (some_log : 0 < ps.active.size) (small : ps.active.size < 0x8000_0000) where
  loaded :
      load_offsets_cache []
        (reader (take ps.active.size (drop 0 (contents ps.active.bw))))
        h.offset_cache
      ≡ (ok tt, (replay rs h.offset_cache).1, [])
  unfolding at_end
  loaded =
      let whole : take ps.active.size (drop 0 (contents ps.active.bw)) ≡ wire_all frame rs =
        take_all ps.active.size (contents ps.active.bw) (omega (arith, log.sized)) ∙ log.logged in
      rw (whole, load_offsets_cache-replay rs h.offset_cache log.records)
        (ap (λ o. (o, (replay rs h.offset_cache).1, [])) (replay_succeeds rs h.offset_cache))

  -- LoadOffsetsCache succeeds on an offsets log that is open, not empty and smaller than 2 ^ 31 bytes,
  -- the system calls succeeding, whatever its records hold, and leaves in the cache what they make of
  -- it, taken one after the other.
  pub hydrate-replay :
      ((hydrate [] h).0 ≡ ok tt) × ((hydrate [] h).1.offset_cache ≡ (replay rs h.offset_cache).1)
  unfolding hydrate hydrate_obtained hydrate_read hydrated section_reader Store.size
  hydrate-replay =
      let size = ps.active.size in
      let full : (size == 0) ≡ false = ground arith in
      let window : window_size size ≡ size = unfold window_size in ground (arith, small) in
      let read' = read-served ps rs log 0 size some_log some_log small is_open in
      let all : min size (size - 0) ≡ size = omega arith in
      let file =
        (flush_empties [] ps.active.bw (flush_succeeds ps.active.bw log.healthy is_open).0).1 in
      rw
        (
          get_or_create_partition-found [] h.store consumer_offsets_topic 0 ps found,
          full,
          window,
          read',
          all,
          (flush_succeeds ps.active.bw log.healthy is_open).1,
          is_open-flush [] ps.active.bw ∙ is_open,
          file,
          loaded,
        )
        (refl, refl)
