-- ===== src/Server/Offsets.antt =====
-- The handlers of internal/server/handler.go on offsets: `handleListOffsets`, `handleOffsetCommit`
-- and `handleOffsetFetch`.
use kage.Prelude.{ℕ, ◌==◌, [], Bytes, if◌then◌else◌}
use kage.Outcome.{Outcome, ok, err, panic}
use kage.Protocol.Error.{ProtocolError}
use kage.Protocol.Decoder.{Stream}
use kage.Protocol.Encoder.{new_encoder, full_message}
use kage.Protocol.Messages.Constants.{
  consumer_offsets_topic, timestamp_latest, err_code_unknown_topic_or_partition,
}
use kage.Protocol.Messages.Header.{RequestHeader}
use kage.Protocol.Messages.ListOffsets.{
  ListOffsetsPartitionRequest, ListOffsetsTopicRequest, ListOffsetsPartitionResponse,
  ListOffsetsTopicResponse, parse_list_offsets_request, encode_list_offsets_response,
}
use kage.Protocol.Messages.OffsetCommit.{
  OffsetCommitPartition, OffsetCommitTopic, OffsetCommitPartitionResponse,
  OffsetCommitTopicResponse, parse_offset_commit_request, encode_offset_commit_response,
}
use kage.Protocol.Messages.OffsetFetch.{
  OffsetFetchPartition, OffsetFetchTopic, OffsetFetchPartitionResponse, OffsetFetchTopicResponse,
  parse_offset_fetch_request, encode_offset_fetch_response,
}
use kage.Server.OffsetRecord.{OffsetCacheKey}
use kage.Server.OffsetCache.{OffsetCache, commit_offset, fetch_committed}
use kage.Server.Run.{Handler, Run, ◌>>=◌, pure, parsed, each, Reply}
use kage.Storage.Error.{StorageError}
use kage.Storage.Bufio.{Os}
use kage.Storage.Store
use kage.Storage.Store.{PartitionStore}
use kage.Storage.BrokerStore.{BrokerStore, partition_key, put_store, get_or_create_partition}

-- The timestamp of an answer is -1.
abbrev pub list_answer : ℕ → ℕ → ℕ → ListOffsetsPartitionResponse
list_answer partition error_code offset = record {
  partition = partition;
  error_code = error_code;
  timestamp = 0xffff_ffff_ffff_ffff;
  offset = offset;
}

unfoldable pub list_latest :
    ℕ
    → Handler
    → Outcome StorageError PartitionStore × BrokerStore × Os
    → Outcome ProtocolError (ListOffsetsPartitionResponse × Handler × Os)
list_latest partition h (ok ps, bs, os) =
    ok (list_answer partition 0 (Store.size ps), record h { store = bs }, os)
list_latest partition h (err _, bs, os) =
    ok (list_answer partition err_code_unknown_topic_or_partition 0, record h { store = bs }, os)
list_latest partition h (panic, bs, os) = panic

-- Any timestamp but the latest is answered with offset 0.
unfoldable pub list_partition :
    Bytes → ListOffsetsPartitionRequest → Run ListOffsetsPartitionResponse
list_partition topic part os h =
    if part.timestamp == timestamp_latest
    then list_latest part.partition h (get_or_create_partition os h.store topic part.partition)
    else ok (list_answer part.partition 0 0, h, os)

unfoldable pub list_topic : ListOffsetsTopicRequest → Run ListOffsetsTopicResponse
list_topic t = do
  partitions ← each (list_partition t.topic_name) t.partitions
  pure (record { topic_name = t.topic_name; partitions = partitions })

unfoldable pub handle_list_offsets : RequestHeader → Stream → Run Reply
handle_list_offsets header s = do
  (req, s') ← parsed (parse_list_offsets_request header s)
  topics ← each list_topic req.topics
  pure (
    full_message (
        encode_list_offsets_response new_encoder header.correlation_id
          (record { topics = topics })),
    s',
  )

-- The answer to a commit; the store of the offsets topic, changed as it is, goes back into the map.
unfoldable pub committed :
    ℕ
    → Handler
    → BrokerStore
    → Outcome ℕ (Unit {0}) × PartitionStore × OffsetCache × Os
    → Outcome ProtocolError (OffsetCommitPartitionResponse × Handler × Os)
committed partition h bs (ok _, ps, cache, os) = ok (
  record { partition = partition; error_code = 0 },
  record h {
    store = record bs { stores = put_store (partition_key consumer_offsets_topic 0) ps bs.stores };
    offset_cache = cache;
  },
  os,
)
committed partition h bs (err code, ps, cache, os) = ok (
  record { partition = partition; error_code = code },
  record h {
    store = record bs { stores = put_store (partition_key consumer_offsets_topic 0) ps bs.stores };
    offset_cache = cache;
  },
  os,
)
committed partition h bs (panic, ps, cache, os) = panic

unfoldable pub commit_obtained :
    OffsetCacheKey
    → ℕ
    → Handler
    → Outcome StorageError PartitionStore × BrokerStore × Os
    → Outcome ProtocolError (OffsetCommitPartitionResponse × Handler × Os)
commit_obtained key offset h (ok ps, bs, os) =
    committed key.partition h bs (commit_offset os ps h.offset_cache key offset)
commit_obtained key offset h (err _, bs, os) =
    ok (record { partition = key.partition; error_code = 1 }, record h { store = bs }, os)
commit_obtained key offset h (panic, bs, os) = panic

unfoldable pub commit_partition :
    Bytes → Bytes → OffsetCommitPartition → Run OffsetCommitPartitionResponse
commit_partition group_id topic part os h =
    commit_obtained (record { group_id = group_id; topic = topic; partition = part.partition })
      part.committed_offset h (get_or_create_partition os h.store consumer_offsets_topic 0)

unfoldable pub commit_topic : Bytes → OffsetCommitTopic → Run OffsetCommitTopicResponse
commit_topic group_id t = do
  partitions ← each (commit_partition group_id t.topic_name) t.partitions
  pure (record { topic_name = t.topic_name; partitions = partitions })

unfoldable pub handle_offset_commit : RequestHeader → Stream → Run Reply
handle_offset_commit header s = do
  (req, s') ← parsed (parse_offset_commit_request s)
  topics ← each (commit_topic req.group_id) req.topics
  pure (
    full_message (
        encode_offset_commit_response new_encoder header.correlation_id
          (record { topics = topics })),
    s',
  )

unfoldable pub fetch_offset :
    Bytes → Bytes → OffsetFetchPartition → Run OffsetFetchPartitionResponse
fetch_offset group_id topic part os h =
    let key : OffsetCacheKey = record {
      group_id = group_id;
      topic = topic;
      partition = part.partition;
    } in
    ok (
      record {
        partition = part.partition;
        committed_offset = fetch_committed h.offset_cache key;
        committed_metadata = [];
        error_code = 0;
      },
      h,
      os,
    )

unfoldable pub fetch_offsets_topic : Bytes → OffsetFetchTopic → Run OffsetFetchTopicResponse
fetch_offsets_topic group_id t = do
  partitions ← each (fetch_offset group_id t.topic_name) t.partitions
  pure (record { topic_name = t.topic_name; partitions = partitions })

unfoldable pub handle_offset_fetch : RequestHeader → Stream → Run Reply
handle_offset_fetch header s = do
  (req, s') ← parsed (parse_offset_fetch_request s)
  topics ← each (fetch_offsets_topic req.group_id) req.topics
  pure (
    full_message (
        encode_offset_fetch_response new_encoder header.correlation_id
          (record { topics = topics })),
    s',
  )
