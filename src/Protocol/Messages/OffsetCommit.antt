-- ===== src/Protocol/Messages/OffsetCommit.antt =====
-- The OffsetCommit request and response (version 2).
pub mod RoundTrip
pub mod Client
use kage.Prelude.{ℕ, List, Bytes, length}
use kage.Protocol.Encoder.{Encoder, write_int16, write_int32, write_string}
use kage.Protocol.Decoder.{Parser, ◌>>=◌, pure, read_int32, read_int64, read_string}
use kage.Protocol.Arrays.{read_array, write_each}

pub record OffsetCommitPartition : Type 0 where
  pub committed_offset : ℕ
  pub committed_metadata : Bytes
  pub partition : ℕ

pub record OffsetCommitTopic : Type 0 where
  pub topic_name : Bytes
  pub partitions : List OffsetCommitPartition

pub record OffsetCommitRequest : Type 0 where
  pub topics : List OffsetCommitTopic
  pub group_id : Bytes
  pub member_id : Bytes
  pub retention_time_ms : ℕ
  pub generation_id : ℕ

-- The body of the loop over the partitions of one topic.
unfoldable pub parse_commit_partition : Parser OffsetCommitPartition
parse_commit_partition = do
  partition ← read_int32
  committed_offset ← read_int64
  committed_metadata ← read_string
  pure (record {
    partition = partition;
    committed_offset = committed_offset;
    committed_metadata = committed_metadata;
  })

unfoldable pub parse_commit_topic : Parser OffsetCommitTopic
parse_commit_topic = do
  topic_name ← read_string
  part_count ← read_int32
  partitions ← read_array part_count parse_commit_partition
  pure (record { topic_name = topic_name; partitions = partitions })

-- The header is not used.
unfoldable pub parse_offset_commit_request : Parser OffsetCommitRequest
parse_offset_commit_request = do
  group_id ← read_string
  generation_id ← read_int32
  member_id ← read_string
  retention_time_ms ← read_int64
  topic_count ← read_int32
  topics ← read_array topic_count parse_commit_topic
  pure (record {
    group_id = group_id;
    generation_id = generation_id;
    member_id = member_id;
    retention_time_ms = retention_time_ms;
    topics = topics;
  })

pub record OffsetCommitPartitionResponse : Type 0 where
  pub partition : ℕ
  pub error_code : ℕ

pub record OffsetCommitTopicResponse : Type 0 where
  pub topic_name : Bytes
  pub partitions : List OffsetCommitPartitionResponse

pub record OffsetCommitResponse : Type 0 where
  pub topics : List OffsetCommitTopicResponse

unfoldable pub write_commit_partition : Encoder → OffsetCommitPartitionResponse → Encoder
write_commit_partition e p = let e1 = write_int32 e p.partition in write_int16 e1 p.error_code

unfoldable pub write_commit_topic : Encoder → OffsetCommitTopicResponse → Encoder
write_commit_topic e t =
    let e1 = write_string e t.topic_name in
    let e2 = write_int32 e1 (length t.partitions) in
    write_each write_commit_partition e2 t.partitions

unfoldable pub encode_offset_commit_response : Encoder → ℕ → OffsetCommitResponse → Encoder
encode_offset_commit_response e correlation_id resp =
    let e1 = write_int32 e correlation_id in
    let e2 = write_int32 e1 (length resp.topics) in write_each write_commit_topic e2 resp.topics
