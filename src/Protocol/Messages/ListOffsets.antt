-- ===== src/Protocol/Messages/ListOffsets.antt =====
-- The ListOffsets request and response (version 1).
pub mod RoundTrip
pub mod Client
use kage.Prelude.{ℕ, ◌||◌, List, Bytes, length, ltb, is_neg32, if◌then◌else◌}
use kage.Protocol.Error.{invalid_topic_count, invalid_partition_count}
use kage.Protocol.Encoder.{Encoder, write_int16, write_int32, write_int64, write_string}
use kage.Protocol.Decoder.{Parser, ◌>>=◌, pure, fail, read_int32, read_int64, read_string}
use kage.Protocol.Arrays.{read_array, write_each}
use kage.Protocol.Messages.Header.{RequestHeader}

pub record ListOffsetsPartitionRequest : Type 0 where
  pub partition : ℕ
  pub timestamp : ℕ

pub record ListOffsetsTopicRequest : Type 0 where
  pub topic_name : Bytes
  pub partitions : List ListOffsetsPartitionRequest

pub record ListOffsetsRequest : Type 0 where
  pub header : RequestHeader
  pub replica_id : ℕ
  pub topics : List ListOffsetsTopicRequest

-- The body of the loop over the partitions of one topic.
unfoldable pub parse_list_partition : Parser ListOffsetsPartitionRequest
parse_list_partition = do
  partition ← read_int32
  timestamp ← read_int64
  pure (record { partition = partition; timestamp = timestamp })

-- A count that is not negative is compared as it stands.
unfoldable pub parse_list_topic : Parser ListOffsetsTopicRequest
parse_list_topic = do
  topic_name ← read_string
  part_count ← read_int32
  if is_neg32 part_count || ltb 1024 part_count
      then fail (invalid_partition_count part_count)
      else do
        partitions ← read_array part_count parse_list_partition
        pure (record { topic_name = topic_name; partitions = partitions })

unfoldable pub parse_list_offsets_request : RequestHeader → Parser ListOffsetsRequest
parse_list_offsets_request header = do
  replica_id ← read_int32
  topic_count ← read_int32
  if is_neg32 topic_count || ltb 1024 topic_count
      then fail (invalid_topic_count topic_count)
      else do
        topics ← read_array topic_count parse_list_topic
        pure (record { header = header; replica_id = replica_id; topics = topics })

pub record ListOffsetsPartitionResponse : Type 0 where
  pub partition : ℕ
  pub error_code : ℕ
  pub timestamp : ℕ
  pub offset : ℕ

pub record ListOffsetsTopicResponse : Type 0 where
  pub topic_name : Bytes
  pub partitions : List ListOffsetsPartitionResponse

pub record ListOffsetsResponse : Type 0 where
  pub topics : List ListOffsetsTopicResponse

unfoldable pub write_list_partition : Encoder → ListOffsetsPartitionResponse → Encoder
write_list_partition e p =
    let e1 = write_int32 e p.partition in
    let e2 = write_int16 e1 p.error_code in
    let e3 = write_int64 e2 p.timestamp in write_int64 e3 p.offset

unfoldable pub write_list_topic : Encoder → ListOffsetsTopicResponse → Encoder
write_list_topic e t =
    let e1 = write_string e t.topic_name in
    let e2 = write_int32 e1 (length t.partitions) in write_each write_list_partition e2 t.partitions

unfoldable pub encode_list_offsets_response : Encoder → ℕ → ListOffsetsResponse → Encoder
encode_list_offsets_response e correlation_id resp =
    let e1 = write_int32 e correlation_id in
    let e2 = write_int32 e1 (length resp.topics) in write_each write_list_topic e2 resp.topics
