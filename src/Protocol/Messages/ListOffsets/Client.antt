-- ===== src/Protocol/Messages/ListOffsets/Client.antt =====
-- What a client reads from the response.
use kage.Prelude.{
  ℕ, ◌<◌, ◌≡◌, [], ◌++◌, append_assoc, Bytes, length, All, IsU16, IsU32, IsU64, wire_all,
}
use kage.Outcome.{ok}
use kage.Binary.{put_uint16, put_uint32, put_uint64}
use kage.Protocol.Encoder.{Encoder}
use kage.Protocol.Encoder.Layout.{wire_string, layout}
use kage.Protocol.Decoder.{Parser, ◌>>=◌, pure, read_int16, read_int32, read_int64, read_string}
use kage.Protocol.Decoder.RoundTrip.{reads}
use kage.Protocol.Arrays.{U32-small, read_array, read_array-wire_all, buffer-write_each}
use kage.Protocol.Messages.ListOffsets.{
  ListOffsetsPartitionResponse, ListOffsetsTopicResponse, ListOffsetsResponse, write_list_partition,
  write_list_topic, encode_list_offsets_response,
}

-- The client reads the fields in the order of the Kafka protocol.
unfoldable pub client_partition : Parser ListOffsetsPartitionResponse
client_partition = do
  partition ← read_int32
  error_code ← read_int16
  timestamp ← read_int64
  offset ← read_int64
  pure (record {
    partition = partition;
    error_code = error_code;
    timestamp = timestamp;
    offset = offset;
  })

unfoldable pub client_topic : Parser ListOffsetsTopicResponse
client_topic = do
  topic_name ← read_string
  count ← read_int32
  partitions ← read_array count client_partition
  pure (record { topic_name = topic_name; partitions = partitions })

unfoldable pub client_response : Parser (ℕ × ListOffsetsResponse)
client_response = do
  correlation_id ← read_int32
  count ← read_int32
  topics ← read_array count client_topic
  pure (correlation_id, record { topics = topics })

unfoldable wire_partition : ListOffsetsPartitionResponse → Bytes
wire_partition p =
    put_uint32 p.partition
    ++ (put_uint16 p.error_code ++ (put_uint64 p.timestamp ++ (put_uint64 p.offset)))

unfoldable wire_topic : ListOffsetsTopicResponse → Bytes
wire_topic t =
    wire_string t.topic_name
    ++ (put_uint32 (length t.partitions) ++ wire_all wire_partition t.partitions)

pub record PartitionFits (p : ListOffsetsPartitionResponse) : Type 0 where
  pub partition : IsU32 p.partition
  pub error_code : IsU16 p.error_code
  pub timestamp : IsU64 p.timestamp
  pub offset : IsU64 p.offset

pub record TopicFits (t : ListOffsetsTopicResponse) : Type 0 where
  pub topic_name : length t.topic_name < 0x8000
  pub partition_count : length t.partitions < 0x8000_0000
  pub partitions : All PartitionFits t.partitions

pub record ResponseFits (r : ListOffsetsResponse) : Type 0 where
  pub topic_count : length r.topics < 0x8000_0000
  pub topics : All TopicFits r.topics

buffer-write_list_partition :
    (e : Encoder) (p : ListOffsetsPartitionResponse)
    → (write_list_partition e p).buffer ≡ e.buffer ++ wire_partition p
unfolding write_list_partition wire_partition
buffer-write_list_partition e p = simp layout

buffer-write_list_topic :
    (e : Encoder) (t : ListOffsetsTopicResponse)
    → (write_list_topic e t).buffer ≡ e.buffer ++ wire_topic t
unfolding write_list_topic wire_topic
buffer-write_list_topic e t =
    simp (layout, buffer-write_each wire_partition write_list_partition buffer-write_list_partition)

client_partition-wire_partition :
    (p : ListOffsetsPartitionResponse) (rest : Bytes)
    → PartitionFits p
    → client_partition (wire_partition p ++ rest) ≡ ok (p, rest)
unfolding client_partition wire_partition
client_partition-wire_partition p rest f =
    simp (append_assoc, reads, ◌>>=◌, f.partition, f.error_code, f.timestamp, f.offset)

client_topic-wire_topic :
    (t : ListOffsetsTopicResponse) (rest : Bytes)
    → TopicFits t
    → client_topic (wire_topic t ++ rest) ≡ ok (t, rest)
unfolding client_topic wire_topic
client_topic-wire_topic t rest f = simp (
  append_assoc,
  reads,
  ◌>>=◌,
  f.topic_name,
  U32-small _ f.partition_count,
  read_array-wire_all wire_partition client_partition PartitionFits client_partition-wire_partition
      t.partitions rest f.partition_count f.partitions,
)

-- A client that reads the ListOffsets response encoded into an empty buffer gets the correlation id and the
-- response that were encoded, whatever follows, when the id and the response fit the format.
pub client_response-encode_list_offsets_response :
    (e : Encoder) (id : ℕ) (resp : ListOffsetsResponse) (rest : Bytes)
    → e.buffer ≡ []
    → IsU32 id
    → ResponseFits resp
    → client_response ((encode_list_offsets_response e id resp).buffer ++ rest)
      ≡ ok ((id, resp), rest)
unfolding encode_list_offsets_response client_response
client_response-encode_list_offsets_response e id resp rest empty h f = simp (
  layout,
  buffer-write_each wire_topic write_list_topic buffer-write_list_topic,
  empty,
  reads,
  ◌>>=◌,
  h,
  U32-small _ f.topic_count,
  read_array-wire_all wire_topic client_topic TopicFits client_topic-wire_topic resp.topics rest
      f.topic_count f.topics,
)
