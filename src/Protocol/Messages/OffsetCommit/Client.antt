-- ===== src/Protocol/Messages/OffsetCommit/Client.antt =====
-- What a client reads from the response.
use kage.Prelude.{ℕ, ◌<◌, ◌≡◌, [], ◌++◌, append_assoc, Bytes, length, All, IsU16, IsU32, wire_all}
use kage.Outcome.{ok}
use kage.Binary.{put_uint16, put_uint32}
use kage.Protocol.Encoder.{Encoder}
use kage.Protocol.Encoder.Layout.{wire_string, layout}
use kage.Protocol.Decoder.{Parser, ◌>>=◌, pure, read_int16, read_int32, read_string}
use kage.Protocol.Decoder.RoundTrip.{reads}
use kage.Protocol.Arrays.{U32-small, read_array, read_array-wire_all, buffer-write_each}
use kage.Protocol.Messages.OffsetCommit.{
  OffsetCommitPartitionResponse, OffsetCommitTopicResponse, OffsetCommitResponse,
  write_commit_partition, write_commit_topic, encode_offset_commit_response,
}

-- The client reads the fields in the order of the Kafka protocol.
unfoldable pub client_partition : Parser OffsetCommitPartitionResponse
client_partition = do
  partition ← read_int32
  error_code ← read_int16
  pure (record { partition = partition; error_code = error_code })

unfoldable pub client_topic : Parser OffsetCommitTopicResponse
client_topic = do
  topic_name ← read_string
  count ← read_int32
  partitions ← read_array count client_partition
  pure (record { topic_name = topic_name; partitions = partitions })

unfoldable pub client_response : Parser (ℕ × OffsetCommitResponse)
client_response = do
  correlation_id ← read_int32
  count ← read_int32
  topics ← read_array count client_topic
  pure (correlation_id, record { topics = topics })

unfoldable wire_partition : OffsetCommitPartitionResponse → Bytes
wire_partition p = put_uint32 p.partition ++ (put_uint16 p.error_code)

unfoldable wire_topic : OffsetCommitTopicResponse → Bytes
wire_topic t =
    wire_string t.topic_name
    ++ (put_uint32 (length t.partitions) ++ wire_all wire_partition t.partitions)

pub record PartitionFits (p : OffsetCommitPartitionResponse) : Type 0 where
  pub partition : IsU32 p.partition
  pub error_code : IsU16 p.error_code

pub record TopicFits (t : OffsetCommitTopicResponse) : Type 0 where
  pub topic_name : length t.topic_name < 0x8000
  pub partition_count : length t.partitions < 0x8000_0000
  pub partitions : All PartitionFits t.partitions

pub record ResponseFits (r : OffsetCommitResponse) : Type 0 where
  pub topic_count : length r.topics < 0x8000_0000
  pub topics : All TopicFits r.topics

buffer-write_commit_partition :
    (e : Encoder) (p : OffsetCommitPartitionResponse)
    → (write_commit_partition e p).buffer ≡ e.buffer ++ wire_partition p
unfolding write_commit_partition wire_partition
buffer-write_commit_partition e p = simp layout

buffer-write_commit_topic :
    (e : Encoder) (t : OffsetCommitTopicResponse)
    → (write_commit_topic e t).buffer ≡ e.buffer ++ wire_topic t
unfolding write_commit_topic wire_topic
buffer-write_commit_topic e t =
    simp (
      layout,
      buffer-write_each wire_partition write_commit_partition buffer-write_commit_partition,
    )

client_partition-wire_partition :
    (p : OffsetCommitPartitionResponse) (rest : Bytes)
    → PartitionFits p
    → client_partition (wire_partition p ++ rest) ≡ ok (p, rest)
unfolding client_partition wire_partition
client_partition-wire_partition p rest f =
    simp (append_assoc, reads, ◌>>=◌, f.partition, f.error_code)

client_topic-wire_topic :
    (t : OffsetCommitTopicResponse) (rest : Bytes)
    → TopicFits t
    → client_topic (wire_topic t ++ rest) ≡ ok (t, rest)
unfolding client_topic wire_topic
client_topic-wire_topic t rest f = simp (
  append_assoc,
  reads,
  ◌>>=◌,
  f.topic_name,
  U32-small _ f.partition_count,
  read_array-wire_all wire_partition client_partition PartitionFits client_partition-wire_partition
      t.partitions rest f.partition_count f.partitions,
)

-- A client that reads the OffsetCommit response encoded into an empty buffer gets the correlation id and the
-- response that were encoded, whatever follows, when the id and the response fit the format.
pub client_response-encode_offset_commit_response :
    (e : Encoder) (id : ℕ) (resp : OffsetCommitResponse) (rest : Bytes)
    → e.buffer ≡ []
    → IsU32 id
    → ResponseFits resp
    → client_response ((encode_offset_commit_response e id resp).buffer ++ rest)
      ≡ ok ((id, resp), rest)
unfolding encode_offset_commit_response client_response
client_response-encode_offset_commit_response e id resp rest empty h f = simp (
  layout,
  buffer-write_each wire_topic write_commit_topic buffer-write_commit_topic,
  empty,
  reads,
  ◌>>=◌,
  h,
  U32-small _ f.topic_count,
  read_array-wire_all wire_topic client_topic TopicFits client_topic-wire_topic resp.topics rest
      f.topic_count f.topics,
)
