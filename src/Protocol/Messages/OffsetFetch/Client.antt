-- ===== src/Protocol/Messages/OffsetFetch/Client.antt =====
-- What a client reads from the response.
use kage.Prelude.{
  ℕ, ◌<◌, ◌≡◌, [], ◌++◌, append_assoc, Bytes, length, All, IsU16, IsU32, IsU64, wire_all,
}
use kage.Outcome.{ok}
use kage.Binary.{put_uint16, put_uint32, put_uint64}
use kage.Protocol.Encoder.{Encoder}
use kage.Protocol.Encoder.Layout.{wire_string, layout}
use kage.Protocol.Decoder.{Parser, ◌>>=◌, pure, read_int16, read_int32, read_int64, read_string}
use kage.Protocol.Decoder.RoundTrip.{reads}
use kage.Protocol.Arrays.{U32-small, read_array, read_array-wire_all, buffer-write_each}
use kage.Protocol.Messages.OffsetFetch.{
  OffsetFetchPartitionResponse, OffsetFetchTopicResponse, OffsetFetchResponse,
  write_committed_partition, write_committed_topic, encode_offset_fetch_response,
}

-- The client reads the fields in the order of the Kafka protocol.
unfoldable pub client_partition : Parser OffsetFetchPartitionResponse
client_partition = do
  partition ← read_int32
  committed_offset ← read_int64
  committed_metadata ← read_string
  error_code ← read_int16
  pure (record {
    partition = partition;
    committed_offset = committed_offset;
    committed_metadata = committed_metadata;
    error_code = error_code;
  })

unfoldable pub client_topic : Parser OffsetFetchTopicResponse
client_topic = do
  topic_name ← read_string
  count ← read_int32
  partitions ← read_array count client_partition
  pure (record { topic_name = topic_name; partitions = partitions })

unfoldable pub client_response : Parser (ℕ × OffsetFetchResponse)
client_response = do
  correlation_id ← read_int32
  count ← read_int32
  topics ← read_array count client_topic
  pure (correlation_id, record { topics = topics })

unfoldable wire_partition : OffsetFetchPartitionResponse → Bytes
wire_partition p =
    put_uint32 p.partition
    ++ (put_uint64 p.committed_offset
        ++ (wire_string p.committed_metadata ++ (put_uint16 p.error_code)))

unfoldable wire_topic : OffsetFetchTopicResponse → Bytes
wire_topic t =
    wire_string t.topic_name
    ++ (put_uint32 (length t.partitions) ++ wire_all wire_partition t.partitions)

pub record PartitionFits (p : OffsetFetchPartitionResponse) : Type 0 where
  pub partition : IsU32 p.partition
  pub committed_offset : IsU64 p.committed_offset
  pub committed_metadata : length p.committed_metadata < 0x8000
  pub error_code : IsU16 p.error_code

pub record TopicFits (t : OffsetFetchTopicResponse) : Type 0 where
  pub topic_name : length t.topic_name < 0x8000
  pub partition_count : length t.partitions < 0x8000_0000
  pub partitions : All PartitionFits t.partitions

pub record ResponseFits (r : OffsetFetchResponse) : Type 0 where
  pub topic_count : length r.topics < 0x8000_0000
  pub topics : All TopicFits r.topics

buffer-write_committed_partition :
    (e : Encoder) (p : OffsetFetchPartitionResponse)
    → (write_committed_partition e p).buffer ≡ e.buffer ++ wire_partition p
unfolding write_committed_partition wire_partition
buffer-write_committed_partition e p = simp layout

buffer-write_committed_topic :
    (e : Encoder) (t : OffsetFetchTopicResponse)
    → (write_committed_topic e t).buffer ≡ e.buffer ++ wire_topic t
unfolding write_committed_topic wire_topic
buffer-write_committed_topic e t = simp (
  layout,
  buffer-write_each wire_partition write_committed_partition buffer-write_committed_partition,
)

client_partition-wire_partition :
    (p : OffsetFetchPartitionResponse) (rest : Bytes)
    → PartitionFits p
    → client_partition (wire_partition p ++ rest) ≡ ok (p, rest)
unfolding client_partition wire_partition
client_partition-wire_partition p rest f = simp (
  append_assoc, reads, ◌>>=◌, f.partition, f.committed_offset, f.committed_metadata, f.error_code,
)

client_topic-wire_topic :
    (t : OffsetFetchTopicResponse) (rest : Bytes)
    → TopicFits t
    → client_topic (wire_topic t ++ rest) ≡ ok (t, rest)
unfolding client_topic wire_topic
client_topic-wire_topic t rest f = simp (
  append_assoc,
  reads,
  ◌>>=◌,
  f.topic_name,
  U32-small _ f.partition_count,
  read_array-wire_all wire_partition client_partition PartitionFits client_partition-wire_partition
      t.partitions rest f.partition_count f.partitions,
)

-- A client that reads the OffsetFetch response encoded into an empty buffer gets the correlation id and the
-- response that were encoded, whatever follows, when the id and the response fit the format.
pub client_response-encode_offset_fetch_response :
    (e : Encoder) (id : ℕ) (resp : OffsetFetchResponse) (rest : Bytes)
    → e.buffer ≡ []
    → IsU32 id
    → ResponseFits resp
    → client_response ((encode_offset_fetch_response e id resp).buffer ++ rest)
      ≡ ok ((id, resp), rest)
unfolding encode_offset_fetch_response client_response
client_response-encode_offset_fetch_response e id resp rest empty h f = simp (
  layout,
  buffer-write_each wire_topic write_committed_topic buffer-write_committed_topic,
  empty,
  reads,
  ◌>>=◌,
  h,
  U32-small _ f.topic_count,
  read_array-wire_all wire_topic client_topic TopicFits client_topic-wire_topic resp.topics rest
      f.topic_count f.topics,
)
