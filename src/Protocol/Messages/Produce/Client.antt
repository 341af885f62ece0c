-- ===== src/Protocol/Messages/Produce/Client.antt =====
-- What a client reads from the response.
use kage.Prelude.{
  ℕ, ◌<◌, ◌≡◌, [], ◌++◌, append_assoc, arith, Bytes, length, All, IsU16, IsU32, IsU64, wire_all,
}
use kage.Outcome.{ok}
use kage.Binary.{put_uint16, put_uint32, put_uint64}
use kage.Protocol.Encoder.{Encoder}
use kage.Protocol.Encoder.Layout.{wire_string, layout}
use kage.Protocol.Decoder.{
  Parser, ◌>>=◌, ◌>>◌, pure, read_int16, read_int32, read_int64, read_string,
}
use kage.Protocol.Decoder.RoundTrip.{reads, read_int32-put_uint32, read_int64-put_uint64}
use kage.Protocol.Arrays.{U32-small, read_array, read_array-wire_all, buffer-write_each}
use kage.Protocol.Messages.Produce.{
  ProducePartitionResponse, ProduceTopicResponse, ProduceResponse, write_produce_partition,
  write_produce_topic, encode_produce_response,
}

-- The client reads the fields in the order of the Kafka protocol, the append time of a partition and
-- the throttle time of the response among them.
unfoldable pub client_partition : Parser ProducePartitionResponse
client_partition = do
  partition ← read_int32
  error_code ← read_int16
  base_offset ← read_int64
  read_int64
  pure (record { partition = partition; error_code = error_code; base_offset = base_offset })

unfoldable pub client_topic : Parser ProduceTopicResponse
client_topic = do
  topic_name ← read_string
  count ← read_int32
  partitions ← read_array count client_partition
  pure (record { topic_name = topic_name; partitions = partitions })

unfoldable pub client_response : Parser (ℕ × ProduceResponse)
client_response = do
  correlation_id ← read_int32
  count ← read_int32
  topics ← read_array count client_topic
  read_int32
  pure (correlation_id, record { topics = topics })

unfoldable wire_partition : ProducePartitionResponse → Bytes
wire_partition p =
    put_uint32 p.partition
    ++ (put_uint16 p.error_code ++ (put_uint64 p.base_offset ++ put_uint64 0xffff_ffff_ffff_ffff))

unfoldable wire_topic : ProduceTopicResponse → Bytes
wire_topic t =
    wire_string t.topic_name
    ++ (put_uint32 (length t.partitions) ++ wire_all wire_partition t.partitions)

pub record PartitionFits (p : ProducePartitionResponse) : Type 0 where
  pub partition : IsU32 p.partition
  pub error_code : IsU16 p.error_code
  pub base_offset : IsU64 p.base_offset

pub record TopicFits (t : ProduceTopicResponse) : Type 0 where
  pub topic_name : length t.topic_name < 0x8000
  pub partition_count : length t.partitions < 0x8000_0000
  pub partitions : All PartitionFits t.partitions

pub record ResponseFits (r : ProduceResponse) : Type 0 where
  pub topic_count : length r.topics < 0x8000_0000
  pub topics : All TopicFits r.topics

buffer-write_produce_partition :
    (e : Encoder) (p : ProducePartitionResponse)
    → (write_produce_partition e p).buffer ≡ e.buffer ++ wire_partition p
unfolding write_produce_partition wire_partition
buffer-write_produce_partition e p = simp layout

buffer-write_produce_topic :
    (e : Encoder) (t : ProduceTopicResponse)
    → (write_produce_topic e t).buffer ≡ e.buffer ++ wire_topic t
unfolding write_produce_topic wire_topic
buffer-write_produce_topic e t = simp (
  layout,
  buffer-write_each wire_partition write_produce_partition buffer-write_produce_partition,
)

read_no_timestamp :
    (rest : Bytes)
    → read_int64 (put_uint64 0xffff_ffff_ffff_ffff ++ rest) ≡ ok (0xffff_ffff_ffff_ffff, rest)
read_no_timestamp rest = read_int64-put_uint64 0xffff_ffff_ffff_ffff rest (omega arith)

read_no_throttle : (rest : Bytes) → read_int32 (put_uint32 0 ++ rest) ≡ ok (0, rest)
read_no_throttle rest = read_int32-put_uint32 0 rest (omega arith)

client_partition-wire_partition :
    (p : ProducePartitionResponse) (rest : Bytes)
    → PartitionFits p
    → client_partition (wire_partition p ++ rest) ≡ ok (p, rest)
unfolding client_partition wire_partition
client_partition-wire_partition p rest f =
    simp (append_assoc, reads, ◌>>=◌, f.partition, f.error_code, f.base_offset, read_no_timestamp)

client_topic-wire_topic :
    (t : ProduceTopicResponse) (rest : Bytes)
    → TopicFits t
    → client_topic (wire_topic t ++ rest) ≡ ok (t, rest)
unfolding client_topic wire_topic
client_topic-wire_topic t rest f = simp (
  append_assoc,
  reads,
  ◌>>=◌,
  f.topic_name,
  U32-small _ f.partition_count,
  read_array-wire_all wire_partition client_partition PartitionFits client_partition-wire_partition
      t.partitions rest f.partition_count f.partitions,
)

-- A client that reads the Produce response encoded into an empty buffer gets the correlation id and the
-- response that were encoded, whatever follows, when the id and the response fit the format.
pub client_response-encode_produce_response :
    (e : Encoder) (id : ℕ) (resp : ProduceResponse) (rest : Bytes)
    → e.buffer ≡ []
    → IsU32 id
    → ResponseFits resp
    → client_response ((encode_produce_response e id resp).buffer ++ rest) ≡ ok ((id, resp), rest)
unfolding encode_produce_response client_response
client_response-encode_produce_response e id resp rest empty h f = simp (
  layout,
  buffer-write_each wire_topic write_produce_topic buffer-write_produce_topic,
  empty,
  reads,
  ◌>>=◌,
  h,
  U32-small _ f.topic_count,
  read_array-wire_all wire_topic client_topic TopicFits client_topic-wire_topic resp.topics
      (put_uint32 0 ++ rest) f.topic_count f.topics,
  read_no_throttle,
)
