-- ===== src/Protocol/Messages/OffsetFetch/RoundTrip.antt =====
-- An OffsetFetch request on the wire is read back.
use kage.Prelude.{◌<◌, ◌≡◌, ◌++◌, append_assoc, Bytes, length, All, IsU32, wire_all}
use kage.Outcome.{ok}
use kage.Binary.{put_uint32}
use kage.Protocol.Encoder.Layout.{wire_string}
use kage.Protocol.Decoder.{◌>>=◌}
use kage.Protocol.Decoder.RoundTrip.{reads}
use kage.Protocol.Arrays.{U32-small, read_array-wire_all}
use kage.Protocol.Messages.OffsetFetch.{
  OffsetFetchPartition, OffsetFetchTopic, OffsetFetchRequest, parse_committed_partition,
  parse_committed_topic, parse_offset_fetch_request,
}

unfoldable pub wire_committed_partition : OffsetFetchPartition → Bytes
wire_committed_partition p = put_uint32 p.partition

unfoldable pub wire_committed_topic : OffsetFetchTopic → Bytes
wire_committed_topic t =
    wire_string t.topic_name
    ++ (put_uint32 (length t.partitions) ++ wire_all wire_committed_partition t.partitions)

unfoldable pub wire_committed_request : OffsetFetchRequest → Bytes
wire_committed_request r =
    wire_string r.group_id
    ++ (put_uint32 (length r.topics) ++ (wire_all wire_committed_topic r.topics))

pub record PartitionFits (p : OffsetFetchPartition) : Type 0 where
  pub partition : IsU32 p.partition

pub record TopicFits (t : OffsetFetchTopic) : Type 0 where
  pub topic_name : length t.topic_name < 0x8000
  pub partition_count : length t.partitions < 0x8000_0000
  pub partitions : All PartitionFits t.partitions

pub record RequestFits (r : OffsetFetchRequest) : Type 0 where
  pub group_id : length r.group_id < 0x8000
  pub topic_count : length r.topics < 0x8000_0000
  pub topics : All TopicFits r.topics

parse_committed_partition-wire :
    (p : OffsetFetchPartition) (rest : Bytes)
    → PartitionFits p
    → parse_committed_partition (wire_committed_partition p ++ rest) ≡ ok (p, rest)
unfolding parse_committed_partition wire_committed_partition
parse_committed_partition-wire p rest f = simp (reads, ◌>>=◌, f.partition)

parse_committed_topic-wire :
    (t : OffsetFetchTopic) (rest : Bytes)
    → TopicFits t
    → parse_committed_topic (wire_committed_topic t ++ rest) ≡ ok (t, rest)
unfolding parse_committed_topic wire_committed_topic
parse_committed_topic-wire t rest f = simp (
  append_assoc,
  reads,
  ◌>>=◌,
  f.topic_name,
  U32-small _ f.partition_count,
  read_array-wire_all wire_committed_partition parse_committed_partition PartitionFits
      parse_committed_partition-wire t.partitions rest f.partition_count f.partitions,
)

-- An OffsetFetch request that fits the format is read back as it was sent, whatever follows it.
pub parse_offset_fetch_request-wire :
    (r : OffsetFetchRequest) (rest : Bytes)
    → RequestFits r
    → parse_offset_fetch_request (wire_committed_request r ++ rest) ≡ ok (r, rest)
unfolding parse_offset_fetch_request wire_committed_request
parse_offset_fetch_request-wire r rest f = simp (
  append_assoc,
  reads,
  ◌>>=◌,
  f.group_id,
  U32-small _ f.topic_count,
  read_array-wire_all wire_committed_topic parse_committed_topic TopicFits
      parse_committed_topic-wire r.topics rest f.topic_count f.topics,
)
