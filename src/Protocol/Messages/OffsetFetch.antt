-- ===== src/Protocol/Messages/OffsetFetch.antt =====
-- The OffsetFetch request and response (version 1).
pub mod RoundTrip
pub mod Client
use kage.Prelude.{ℕ, List, Bytes, length}
use kage.Protocol.Encoder.{Encoder, write_int16, write_int32, write_int64, write_string}
use kage.Protocol.Decoder.{Parser, ◌>>=◌, pure, read_int32, read_string}
use kage.Protocol.Arrays.{read_array, write_each}

pub record OffsetFetchPartition : Type 0 where
  pub partition : ℕ

pub record OffsetFetchTopic : Type 0 where
  pub topic_name : Bytes
  pub partitions : List OffsetFetchPartition

pub record OffsetFetchRequest : Type 0 where
  pub topics : List OffsetFetchTopic
  pub group_id : Bytes

-- The body of the loop over the partitions of one topic.
unfoldable pub parse_committed_partition : Parser OffsetFetchPartition
parse_committed_partition = do partition ← read_int32; pure (record { partition = partition })

unfoldable pub parse_committed_topic : Parser OffsetFetchTopic
parse_committed_topic = do
  topic_name ← read_string
  part_count ← read_int32
  partitions ← read_array part_count parse_committed_partition
  pure (record { topic_name = topic_name; partitions = partitions })

-- The header is not used.
unfoldable pub parse_offset_fetch_request : Parser OffsetFetchRequest
parse_offset_fetch_request = do
  group_id ← read_string
  topic_count ← read_int32
  topics ← read_array topic_count parse_committed_topic
  pure (record { group_id = group_id; topics = topics })

pub record OffsetFetchPartitionResponse : Type 0 where
  pub committed_offset : ℕ
  pub committed_metadata : Bytes
  pub partition : ℕ
  pub error_code : ℕ

pub record OffsetFetchTopicResponse : Type 0 where
  pub topic_name : Bytes
  pub partitions : List OffsetFetchPartitionResponse

pub record OffsetFetchResponse : Type 0 where
  pub topics : List OffsetFetchTopicResponse

unfoldable pub write_committed_partition : Encoder → OffsetFetchPartitionResponse → Encoder
write_committed_partition e p =
    let e1 = write_int32 e p.partition in
    let e2 = write_int64 e1 p.committed_offset in
    let e3 = write_string e2 p.committed_metadata in write_int16 e3 p.error_code

unfoldable pub write_committed_topic : Encoder → OffsetFetchTopicResponse → Encoder
write_committed_topic e t =
    let e1 = write_string e t.topic_name in
    let e2 = write_int32 e1 (length t.partitions) in
    write_each write_committed_partition e2 t.partitions

unfoldable pub encode_offset_fetch_response : Encoder → ℕ → OffsetFetchResponse → Encoder
encode_offset_fetch_response e correlation_id resp =
    let e1 = write_int32 e correlation_id in
    let e2 = write_int32 e1 (length resp.topics) in write_each write_committed_topic e2 resp.topics
