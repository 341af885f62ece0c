-- ===== src/Protocol/Messages/Fetch.antt =====
-- The Fetch request, and the writing of a Fetch response.
pub mod RoundTrip
pub mod Frame
use kage.Prelude.{
  ℕ, ◌+◌, Bool, not, ◌||◌, Option, none, some, List, [], ◌∷◌, ◌++◌, Bytes, length, is_neg32, add32,
  ◌==◌, if◌then◌else◌,
}
use kage.Binary.{put_uint32}
use kage.Protocol.Encoder.{
  Encoder, new_encoder, write_int16, write_int32, write_int64, write_string,
}
use kage.Protocol.Decoder.{Parser, ◌>>=◌, pure, read_int8, read_int32, read_int64, read_string}
use kage.Protocol.Arrays.{read_array}
use kage.Protocol.Messages.Header.{RequestHeader}

pub record FetchPartitionData : Type 0 where
  pub fetch_offset : ℕ
  pub partition : ℕ
  pub partition_max_bytes : ℕ

pub record FetchTopicData : Type 0 where
  pub topic_name : Bytes
  pub partitions : List FetchPartitionData

pub record FetchRequest : Type 0 where
  pub topics : List FetchTopicData
  pub header : RequestHeader
  pub replica_id : ℕ
  pub max_wait_ms : ℕ
  pub min_bytes : ℕ
  pub max_bytes : ℕ
  pub isolation_level : ℕ

unfoldable pub parse_fetch_partition : Parser FetchPartitionData
parse_fetch_partition = do
  partition ← read_int32
  fetch_offset ← read_int64
  part_max_bytes ← read_int32
  pure (record {
    fetch_offset = fetch_offset;
    partition = partition;
    partition_max_bytes = part_max_bytes;
  })

unfoldable pub parse_fetch_topic : Parser FetchTopicData
parse_fetch_topic = do
  topic_name ← read_string
  part_count ← read_int32
  partitions ← read_array part_count parse_fetch_partition
  pure (record { topic_name = topic_name; partitions = partitions })

unfoldable pub parse_fetch_request : RequestHeader → Parser FetchRequest
parse_fetch_request header = do
  replica_id ← read_int32
  max_wait_ms ← read_int32
  min_bytes ← read_int32
  max_bytes ← read_int32
  isolation_level ← read_int8
  topic_count ← read_int32
  topics ← read_array topic_count parse_fetch_topic
  pure (record {
    topics = topics;
    header = header;
    replica_id = replica_id;
    max_wait_ms = max_wait_ms;
    min_bytes = min_bytes;
    max_bytes = max_bytes;
    isolation_level = isolation_level;
  })

-- The record batch is a reader; here it is the bytes that the reader delivers, if it is not nil.
pub record FetchPartitionResponse : Type 0 where
  pub record_batch : Option Bytes
  pub high_watermark : ℕ
  pub batch_size : ℕ
  pub partition : ℕ
  pub error_code : ℕ

pub record FetchTopicResponse : Type 0 where
  pub topic_name : Bytes
  pub partitions : List FetchPartitionResponse

pub record FetchResponse : Type 0 where
  pub topics : List FetchTopicResponse
  pub throttle_time_ms : ℕ

-- The int32 `n` is above 0.
abbrev pub is_positive32 : ℕ → Bool
is_positive32 n = not (is_neg32 n || n == 0)

-- `totalPayload`, an int32 that wraps, over the partitions of one topic and over the topics.
unfoldable pub partitions_payload : ℕ → List FetchPartitionResponse → ℕ
partitions_payload total [] = total
partitions_payload total (p ∷ ps) =
    partitions_payload
      (if is_positive32 p.batch_size then add32 (add32 total 30) p.batch_size else add32 total 30)
      ps

unfoldable pub topics_payload : ℕ → List FetchTopicResponse → ℕ
topics_payload total [] = total
topics_payload total (t ∷ ts) =
    topics_payload (partitions_payload (add32 total (2 + length t.topic_name + 4)) t.partitions) ts

unfoldable pub total_payload : FetchResponse → ℕ
total_payload resp = topics_payload 12 resp.topics

-- The writer `w` is what has been written to it; a write to the connection that fails is outside
-- the model.
unfoldable pub copy_batch : Bytes → FetchPartitionResponse → Bytes
copy_batch w p = elim p.record_batch [
  | none ↦ w
  | some b ↦ if is_positive32 p.batch_size then w ++ b else w
]

unfoldable pub write_fetch_partition : Bytes → FetchPartitionResponse → Bytes
write_fetch_partition w p =
    let e1 = write_int32 new_encoder p.partition in
    let e2 = write_int16 e1 p.error_code in
    let e3 = write_int64 e2 p.high_watermark in
    let e4 = write_int64 e3 p.high_watermark in
    let e5 = write_int32 e4 0 in
    let e6 = write_int32 e5 p.batch_size in copy_batch (w ++ e6.buffer) p

unfoldable pub write_fetch_partitions : Bytes → List FetchPartitionResponse → Bytes
write_fetch_partitions w [] = w
write_fetch_partitions w (p ∷ ps) = write_fetch_partitions (write_fetch_partition w p) ps

-- The buffer of `topicEnc`.
unfoldable pub topic_header : FetchTopicResponse → Bytes
topic_header t =
    let e1 = write_string new_encoder t.topic_name in (write_int32 e1 (length t.partitions)).buffer

unfoldable pub write_fetch_topics : Bytes → List FetchTopicResponse → Bytes
write_fetch_topics w [] = w
write_fetch_topics w (t ∷ ts) =
    write_fetch_topics (write_fetch_partitions (w ++ topic_header t) t.partitions) ts

-- The buffer of `hdr`.
unfoldable pub frame_header : ℕ → FetchResponse → Bytes
frame_header correlation_id resp =
    let e1 = write_int32 new_encoder correlation_id in
    let e2 = write_int32 e1 resp.throttle_time_ms in (write_int32 e2 (length resp.topics)).buffer

unfoldable pub write_fetch_response : Bytes → ℕ → FetchResponse → Bytes
write_fetch_response w correlation_id resp =
    write_fetch_topics ((w ++ put_uint32 (total_payload resp)) ++ frame_header correlation_id resp)
      resp.topics
