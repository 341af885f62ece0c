-- ===== src/Tests/CacheTests.antt =====
-- Runs of the offset cache of internal/server/handler.go on concrete data.
use kage.Prelude.{
  ◌≡◌, some, true, bytes_eq, ◌≢◌, refl, [], ◌∷◌, ◌++◌, arith, length, Bytes, wire_all,
}
use kage.Decimal.{format_int32, digits, digits_of}
use kage.Protocol.Messages.Constants.{consumer_offsets_topic}
use kage.Server.Hydrate.{hydrate}
use kage.Server.Hydrate.Restart.{hydrate-replay}
use kage.Server.Hydrate.Durable.{hydrate-commit_offset}
use kage.Storage.Store.Restart.{closed_dir}
use kage.Server.Run.{Handler}
use kage.Storage.BrokerStore.{partition_key, find_store}
use kage.Outcome.{ok, panic}
use kage.Binary.{put_uint16, put_uint32, put_uint64}
use kage.Server.OffsetRecord.Safety.{decode_offset_record-panic}
use kage.Server.OffsetRecord.{
  decode_offset_record, OffsetCacheKey, encode_offset_key, encode_offset_record,
}
use kage.Server.OffsetCache.{
  OffsetCache, empty_cache, load_offsets_cache, commit_offset, put, fetch_committed,
}
use kage.Server.OffsetCache.Replay.{reader, commit_record, replay, commit_offset-load}
use kage.Server.OffsetCache
use kage.Storage.Bufio
use kage.Storage.Index
use kage.Storage.Segment
use kage.Storage.Store
use kage.Storage.Bufio.{new_writer}
use kage.Storage.Segment.{Segment}
use kage.Storage.Segment.Log.{IsLog, IsRecord, frame}
use kage.Storage.Segment.Success.{fresh, fresh-IsLog, fresh-IsReady}
use kage.Storage.Store.{PartitionStore, open_partition_store}

abbrev key : OffsetCacheKey
key = record { group_id = b'g' ∷ []; topic = b't' ∷ b'1' ∷ []; partition = 3 }

abbrev record' : Bytes
record' = commit_record key 42

record'-IsRecord : IsRecord record'
unfolding encode_offset_key encode_offset_record put_uint16 put_uint32 put_uint64
record'-IsRecord = omega arith

abbrev store : PartitionStore
store = record {
  dir_name = b't' ∷ b'-' ∷ b'3' ∷ [];
  dir = λ _. record { log = []; index = [] };
  cfg = record { max_size = 100; retention = 0 };
  active = fresh 0 100;
  next_base = 0;
}

commit_succeeds : (commit_offset [] store empty_cache key 42).0 ≡ ok tt
unfolding commit_offset encode_offset_key encode_offset_record put_uint16 put_uint32 put_uint64
    OffsetCache.finish_commit Store.append Store.append_retry Store.append_active Segment.append
    Segment.append_record Bufio.write new_writer Bufio.write_empty Segment.append_index
    Index.maybe_append
commit_succeeds = refl

commit_offset-load_example :
    let r = commit_offset [] store empty_cache key 42 in
    IsLog r.1.active ([] ++ record' ∷ [])
    × (load_offsets_cache [] (reader (wire_all frame ([] ++ record' ∷ []))) empty_cache
        ≡ (ok tt, r.2, []))
unfolding encode_offset_key encode_offset_record put_uint16 put_uint32 put_uint64 replay
commit_offset-load_example =
    commit_offset-load store [] key 42 empty_cache empty_cache
      (record { group_id = omega arith; topic = omega arith; partition = omega arith })
      (omega arith) refl [] (fresh-IsLog 0 100 (omega arith)) record'-IsRecord (omega arith)
      commit_succeeds

decode_offset_record-panic_example : decode_offset_record (0 ∷ 0 ∷ 0 ∷ 9 ∷ 1 ∷ []) ≢ panic
decode_offset_record-panic_example = decode_offset_record-panic (0 ∷ 0 ∷ 0 ∷ 9 ∷ 1 ∷ [])

record'-length : length record' ≡ 27
unfolding encode_offset_key encode_offset_record put_uint16 put_uint32 put_uint64
record'-length = refl

abbrev after : PartitionStore
after = (commit_offset [] store empty_cache key 42).1

-- What the new process opens.
abbrev reopened : PartitionStore
reopened = record {
  dir_name = b't' ∷ b'-' ∷ b'3' ∷ [];
  dir = closed_dir after;
  cfg = store.cfg;
  active = record {
    bw = new_writer (closed_dir after 0).log;
    idx = record { bw = new_writer []; entries = []; bytes_written_since_last_entry = 0 };
    base_offset = 0;
    size = 31;
    max_size = 100;
  };
  next_base = 0;
}

abbrev restarted : Handler
restarted = record {
  store = record {
    stores = (partition_key consumer_offsets_topic 0, reopened) ∷ [];
    disk = λ _ _. record { log = []; index = [] };
    cfg = record { max_size = 100; retention = 0 };
  };
  offset_cache = empty_cache;
  host = b'h' ∷ [];
}

restarted-found :
    find_store (partition_key consumer_offsets_topic 0) restarted.store.stores ≡ some reopened
unfolding find_store partition_key format_int32 digits digits_of bytes_eq
restarted-found = refl

opened_again : (open_partition_store [] after.dir_name (closed_dir after) after.cfg).0 ≡ ok reopened
unfolding commit_offset open_partition_store Segment.open_segment Bufio.call new_writer
    Index.open_index OffsetCache.finish_commit closed_dir Index.load_entries Store.append
    Store.put_files Store.append_retry Store.append_active Segment.append encode_offset_record
    put_uint16 put_uint32 encode_offset_key put_uint64 Segment.append_record Bufio.write
    Bufio.write_empty Bufio.flush Bufio.flush_buffer Bufio.next Bufio.direct_write Index.close_index
    Index.maybe_append Segment.append_index Segment.close_segment Store.close_store
    Store.closed_files
opened_again = refl

-- The process goes on over the store that the commit has left.
abbrev running : Handler
running = record restarted {
  store = record restarted.store { stores = (partition_key consumer_offsets_topic 0, after) ∷ [] };
}

after-found : find_store (partition_key consumer_offsets_topic 0) running.store.stores ≡ some after
unfolding find_store partition_key format_int32 digits digits_of bytes_eq
after-found = refl

after-is_open : after.active.bw.is_open ≡ true
unfolding commit_offset encode_offset_key encode_offset_record put_uint16 put_uint32 put_uint64
    OffsetCache.finish_commit Store.append Store.append_retry Store.append_active Segment.append
    Segment.append_record Bufio.write new_writer Bufio.write_empty Segment.append_index
    Index.maybe_append
after-is_open = refl

after-size : after.active.size ≡ 31
unfolding commit_offset encode_offset_key encode_offset_record put_uint16 put_uint32 put_uint64
    OffsetCache.finish_commit Store.append Store.append_retry Store.append_active Segment.append
    Segment.append_record Bufio.write new_writer Bufio.write_empty Segment.append_index
    Index.maybe_append
after-size = refl

after-IsLog : IsLog after.active (record' ∷ [])
unfolding encode_offset_key encode_offset_record put_uint16 put_uint32 put_uint64 replay
after-IsLog =
    (commit_offset-load store [] key 42 empty_cache empty_cache
      (record { group_id = omega arith; topic = omega arith; partition = omega arith })
      (omega arith) refl [] (fresh-IsLog 0 100 (omega arith)) record'-IsRecord (omega arith)
      commit_succeeds).0

hydrate-replay_example :
    ((hydrate [] running).0 ≡ ok tt)
    × ((hydrate [] running).1.offset_cache ≡ (replay (record' ∷ []) empty_cache).1)
hydrate-replay_example =
    hydrate-replay running after (record' ∷ []) after-found after-IsLog after-is_open
      (omega (arith, after-size)) (omega (arith, after-size))

hydrate-commit_offset_example :
    let c = commit_offset [] store empty_cache key 42 in
    (c.0 ≡ ok tt)
    × ((hydrate [] restarted).0 ≡ ok tt)
    × ((hydrate [] restarted).1.offset_cache ≡ c.2)
unfolding replay
hydrate-commit_offset_example =
    hydrate-commit_offset store reopened [] key 42 empty_cache restarted
      (record { group_id = omega arith; topic = omega arith; partition = omega arith })
      (omega arith) refl (fresh-IsLog 0 100 (omega arith)) (fresh-IsReady 0 100) refl refl
      record'-IsRecord (omega (arith, record'-length)) (omega (arith, record'-length)) opened_again
      restarted-found refl
