-- ===== src/Server/Hydrate/Durable.antt =====
-- A commit outlives a restart.
use kage.Prelude.{
  ℕ, ◌+◌, ◌≤◌, ◌<◌, ◌≡◌, refl, sym, ap, ◌∙◌, some, List, [], ◌∷◌, ◌++◌, arith, Bytes, length,
  wire_all, IsU64,
}
use kage.Outcome.{Outcome, ok}
use kage.Storage.Error.{StorageError}
use kage.Protocol.Messages.Constants.{consumer_offsets_topic}
use kage.Server.Fetch.Served.{append-active, size-split}
use kage.Server.Hydrate.{hydrate}
use kage.Server.Hydrate.Restart.{hydrate-replay}
use kage.Server.OffsetCache.{
  OffsetCache, Loaded, empty_cache, put, finish_commit, commit_offset, load_offsets_cache,
}
use kage.Server.OffsetCache.Replay.{
  reader, at_end, KeyFits, commit_record, replay, load_offsets_cache-replay, commit_offset-load,
}
use kage.Server.OffsetRecord.{OffsetCacheKey}
use kage.Server.Run.{Handler}
use kage.Storage.BrokerStore.{partition_key, find_store}
use kage.Storage.Segment
use kage.Storage.Segment.{SegmentConfig}
use kage.Storage.Segment.Log.{IsLog, IsRecord, frame}
use kage.Storage.Segment.Open.{append-settings}
use kage.Storage.Segment.Success.{SegmentIsReady, append_succeeds}
use kage.Storage.Store.{PartitionStore, append_active, open_partition_store}
use kage.Storage.Store.Restart.{closed_dir, IsReopened, open_partition_store-close_store}

-- The offsets store behind a commit.
abbrev committed : PartitionStore → OffsetCacheKey → ℕ → PartitionStore
committed ps key offset = record ps {
  active = (Segment.append [] ps.active (commit_record key offset)).1;
}

-- With the system calls succeeding, a commit that has room succeeds.
commit_succeeds :
    (ps : PartitionStore) (rs : List Bytes) (key : OffsetCacheKey) (offset : ℕ)
    (cache : OffsetCache)
    → IsLog ps.active rs
    → SegmentIsReady ps.active
    → IsRecord (commit_record key offset)
    → ps.active.size + (4 + length (commit_record key offset)) ≤ ps.active.max_size
    → commit_offset [] ps cache key offset ≡ (
      ok tt,
      committed ps key offset,
      put key offset cache,
      (Segment.append [] ps.active (commit_record key offset)).2,
    )
unfolding commit_offset finish_commit append_active
commit_succeeds ps rs key offset cache log ready fits room =
    let p = commit_record key offset in
    let (place, _) = append_succeeds ps.active p ready log fits room in
    rw (append-active [] ps rs p log fits room) (rw place)

same_store :
    (o : Outcome StorageError PartitionStore) (a b : PartitionStore) → o ≡ ok a → o ≡ ok b → a ≡ b
same_store o a b e f = ground arith

-- A process that starts over a store that has been opened again loads its log.
hydrate-reopened :
    (o : Outcome StorageError PartitionStore) (cfg : SegmentConfig) (rs : List Bytes)
    (ps' : PartitionStore) (h : Handler)
    → IsReopened o cfg rs
    → o ≡ ok ps'
    → find_store (partition_key consumer_offsets_topic 0) h.store.stores ≡ some ps'
    → 0 < length (wire_all frame rs)
    → length (wire_all frame rs) < 0x8000_0000
    → ((hydrate [] h).0 ≡ ok tt) × ((hydrate [] h).1.offset_cache ≡ (replay rs h.offset_cache).1)
hydrate-reopened o cfg rs ps' h r e found positive small =
    let same : r.store ≡ ps' = same_store o r.store ps' r.opened e in
    let found' : find_store (partition_key consumer_offsets_topic 0) h.store.stores ≡ some r.store =
      found ∙ ap (λ t. some t) (sym same) in
    let size : r.store.active.size ≡ length (wire_all frame rs) =
      r.log.sized ∙ ap length r.log.logged in
    hydrate-replay h r.store rs found' r.log r.ready.log.is_open (omega (arith, size))
      (omega (arith, size))

-- A commit outlives a restart. With every system call succeeding, suppose that the offsets store
-- takes what is written, that its limit is the configured one, that its active segment is the first,
-- of base offset 0, and holds a log whose replay gives the cache, and that it has room for the
-- commit record of a key and an offset that fit their fields, the segment staying below 2 ^ 31
-- bytes. Then the commit succeeds, and when that store has been closed and opened again, the
-- handler of the new process, which starts with an empty cache, loads exactly the cache that there
-- was after the commit.
pub hydrate-commit_offset :
    (ps ps' : PartitionStore) (rs : List Bytes) (key : OffsetCacheKey) (offset : ℕ)
    (cache : OffsetCache) (h : Handler)
    → KeyFits key
    → IsU64 offset
    → replay rs empty_cache ≡ (ok tt, cache)
    → IsLog ps.active rs
    → SegmentIsReady ps.active
    → ps.active.max_size ≡ ps.cfg.max_size
    → ps.active.base_offset ≡ 0
    → IsRecord (commit_record key offset)
    → ps.active.size + (4 + length (commit_record key offset)) ≤ ps.active.max_size
    → ps.active.size + (4 + length (commit_record key offset)) < 0x8000_0000
    → let c = commit_offset [] ps cache key offset in
      (open_partition_store [] c.1.dir_name (closed_dir c.1) c.1.cfg).0 ≡ ok ps'
      → find_store (partition_key consumer_offsets_topic 0) h.store.stores ≡ some ps'
      → h.offset_cache ≡ empty_cache
      → (c.0 ≡ ok tt) × ((hydrate [] h).0 ≡ ok tt) × ((hydrate [] h).1.offset_cache ≡ c.2)
hydrate-commit_offset ps ps' rs key offset cache h k v in_step log ready limit first fits room small
      again found fresh =
    let p = commit_record key offset in
    let after = committed ps key offset in
    let done = commit_succeeds ps rs key offset cache log ready fits room in
    let (log', loaded) =
      commit_offset-load ps rs key offset empty_cache cache k v in_step [] log fits room
        (ap (λ x. x.0) done) in
    let log'' : IsLog after.active (rs ++ p ∷ []) = rw done at log' in
    let loaded' : load_offsets_cache [] (reader (wire_all frame (rs ++ p ∷ []))) empty_cache
        ≡ (ok tt, put key offset cache, []) =
      rw done at loaded in
    let again' : (open_partition_store [] after.dir_name (closed_dir after) ps.cfg).0 ≡ ok ps' =
      rw done at again in
    let (base, max) = append-settings [] ps.active p in
    let ready' = (append_succeeds ps.active p ready log fits room).1 in
    let (_, reopened) =
      open_partition_store-close_store after (rs ++ p ∷ []) log'' ready' (max ∙ limit)
        (omega (arith, room, limit)) (base ∙ first) in
    let split = size-split after rs p log'' in
    let before : ps.active.size ≡ length (wire_all frame rs) = log.sized ∙ ap length log.logged in
    let total : after.active.size ≡ length (wire_all frame (rs ++ p ∷ [])) =
      log''.sized ∙ ap length log''.logged in
    let replayed : at_end (replay (rs ++ p ∷ []) empty_cache) ≡ (ok tt, put key offset cache, []) =
      sym (load_offsets_cache-replay (rs ++ p ∷ []) empty_cache log''.records) ∙ loaded' in
    let (ok', cache') =
      hydrate-reopened _ ps.cfg (rs ++ p ∷ []) ps' h reopened again' found
        (omega (arith, split, total)) (omega (arith, split, total, before, small)) in
    let cache'' : (hydrate [] h).1.offset_cache ≡ put key offset cache =
      cache'
      ∙ ap (λ c. (replay (rs ++ p ∷ []) c).1) fresh
      ∙ unfold at_end in ap (λ (x : Loaded). x.1) replayed in
    rw done (refl, ok', cache'')
