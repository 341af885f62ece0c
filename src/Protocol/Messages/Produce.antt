-- ===== src/Protocol/Messages/Produce.antt =====
-- The Produce request and response.
pub mod RoundTrip
pub mod Client
use kage.Prelude.{
  ℕ, ◌||◌, List, Bytes, length, ltb, slt16, is_neg16, is_neg32, sext32, ◌==◌, if◌then◌else◌,
}
use kage.Protocol.Error.{invalid_topic_count, invalid_partition_count, negative_batch_size}
use kage.Protocol.Encoder.{Encoder, write_int16, write_int32, write_int64, write_string}
use kage.Protocol.Decoder.{
  Parser, ◌>>=◌, ◌>>◌, pure, fail, read_int16, read_int32, read_bytes, read_string,
}
use kage.Protocol.Arrays.{read_array, write_each}
use kage.Protocol.Messages.Header.{RequestHeader}

pub record ProducePartitionData : Type 0 where
  pub record_batch : Bytes
  pub partition : ℕ

pub record ProduceTopicData : Type 0 where
  pub topic_name : Bytes
  pub partitions : List ProducePartitionData

pub record ProduceRequest : Type 0 where
  pub topics : List ProduceTopicData
  pub header : RequestHeader
  pub timeout_ms : ℕ
  pub acks : ℕ

-- The body of the loop over the partitions of one topic.
unfoldable pub parse_produce_partition : Parser ProducePartitionData
parse_produce_partition = do
  partition ← read_int32
  batch_size ← read_int32
  if is_neg32 batch_size then fail (negative_batch_size batch_size) else do
    batch ← read_bytes batch_size
    pure (record { record_batch = batch; partition = partition })

-- The body of the loop over the topics. A count that is not negative is compared as it stands.
unfoldable pub parse_produce_topic : Parser ProduceTopicData
parse_produce_topic = do
  topic_name ← read_string
  part_count ← read_int32
  if is_neg32 part_count || ltb 1024 part_count
      then fail (invalid_partition_count part_count)
      else do
        partitions ← read_array part_count parse_produce_partition
        pure (record { topic_name = topic_name; partitions = partitions })

-- The transactional id is read and dropped.
unfoldable pub skip_transactional_id : RequestHeader → Parser (Unit {0})
skip_transactional_id header = if slt16 header.api_version 3 then pure tt else do
  txn_len ← read_int16
  if is_neg16 txn_len || txn_len == 0 then pure tt else do read_bytes txn_len; pure tt

unfoldable pub parse_produce_request : RequestHeader → Parser ProduceRequest
parse_produce_request header = do
  skip_transactional_id header
  acks ← read_int16
  timeout_ms ← read_int32
  topic_count ← read_int32
  if is_neg32 topic_count || ltb 1024 topic_count
      then fail (invalid_topic_count topic_count)
      else do
        topics ← read_array topic_count parse_produce_topic
        pure (record { header = header; acks = acks; timeout_ms = timeout_ms; topics = topics })

pub record ProducePartitionResponse : Type 0 where
  pub base_offset : ℕ
  pub partition : ℕ
  pub error_code : ℕ

pub record ProduceTopicResponse : Type 0 where
  pub topic_name : Bytes
  pub partitions : List ProducePartitionResponse

pub record ProduceResponse : Type 0 where
  pub topics : List ProduceTopicResponse

-- Timestamp: -1 means that there is no log-append-time override.
unfoldable pub write_produce_partition : Encoder → ProducePartitionResponse → Encoder
write_produce_partition e p =
    let e1 = write_int32 e p.partition in
    let e2 = write_int16 e1 p.error_code in
    let e3 = write_int64 e2 p.base_offset in write_int64 e3 0xffff_ffff_ffff_ffff

unfoldable pub write_produce_topic : Encoder → ProduceTopicResponse → Encoder
write_produce_topic e t =
    let e1 = write_string e t.topic_name in
    let e2 = write_int32 e1 (length t.partitions) in
    write_each write_produce_partition e2 t.partitions

unfoldable pub encode_produce_response : Encoder → ℕ → ProduceResponse → Encoder
encode_produce_response e correlation_id resp =
    let e1 = write_int32 e correlation_id in
    let e2 = write_int32 e1 (length resp.topics) in
    let e3 = write_each write_produce_topic e2 resp.topics in write_int32 e3 0
