-- ===== src/Protocol/Messages/ListOffsets/RoundTrip.antt =====
-- A ListOffsets request on the wire is read back.
use kage.Prelude.{
  ◌<◌, ◌≤◌, ◌≡◌, ◌++◌, append_assoc, arith, Bytes, length, All, IsU32, IsU64, wire_all,
}
use kage.Outcome.{ok}
use kage.Binary.{put_uint32, put_uint64}
use kage.Protocol.Encoder.Layout.{wire_string}
use kage.Protocol.Decoder.{◌>>=◌}
use kage.Protocol.Decoder.RoundTrip.{reads, read_int32-put_uint32}
use kage.Protocol.Arrays.{read_array-wire_all}
use kage.Protocol.Messages.ListOffsets.{
  ListOffsetsPartitionRequest, ListOffsetsTopicRequest, ListOffsetsRequest, parse_list_partition,
  parse_list_topic, parse_list_offsets_request,
}

unfoldable pub wire_list_partition : ListOffsetsPartitionRequest → Bytes
wire_list_partition p = put_uint32 p.partition ++ (put_uint64 p.timestamp)

unfoldable pub wire_list_topic : ListOffsetsTopicRequest → Bytes
wire_list_topic t =
    wire_string t.topic_name
    ++ (put_uint32 (length t.partitions) ++ wire_all wire_list_partition t.partitions)

unfoldable pub wire_list_request : ListOffsetsRequest → Bytes
wire_list_request r =
    put_uint32 r.replica_id ++ (put_uint32 (length r.topics) ++ (wire_all wire_list_topic r.topics))

pub record PartitionFits (p : ListOffsetsPartitionRequest) : Type 0 where
  pub partition : IsU32 p.partition
  pub timestamp : IsU64 p.timestamp

pub record TopicFits (t : ListOffsetsTopicRequest) : Type 0 where
  pub topic_name : length t.topic_name < 0x8000
  pub partition_count : length t.partitions ≤ 1024
  pub partitions : All PartitionFits t.partitions

pub record RequestFits (r : ListOffsetsRequest) : Type 0 where
  pub replica_id : IsU32 r.replica_id
  pub topic_count : length r.topics ≤ 1024
  pub topics : All TopicFits r.topics

parse_list_partition-wire :
    (p : ListOffsetsPartitionRequest) (rest : Bytes)
    → PartitionFits p
    → parse_list_partition (wire_list_partition p ++ rest) ≡ ok (p, rest)
unfolding parse_list_partition wire_list_partition
parse_list_partition-wire p rest f = simp (append_assoc, reads, ◌>>=◌, f.partition, f.timestamp)

parse_list_topic-wire :
    (t : ListOffsetsTopicRequest) (rest : Bytes)
    → TopicFits t
    → parse_list_topic (wire_list_topic t ++ rest) ≡ ok (t, rest)
unfolding parse_list_topic wire_list_topic
parse_list_topic-wire t rest f =
    simp (append_assoc, reads, ◌>>=◌, f.topic_name)
      (ground (
        arith,
        read_int32-put_uint32 (length t.partitions)
            (wire_all wire_list_partition t.partitions ++ rest),
        read_array-wire_all wire_list_partition parse_list_partition PartitionFits
            parse_list_partition-wire t.partitions rest,
        f.partitions,
      ))

-- A ListOffsets request that fits the format, with at most 1024 topics and 1024 partitions each,
-- is read back as it was sent, whatever follows it.
pub parse_list_offsets_request-wire :
    (r : ListOffsetsRequest) (rest : Bytes)
    → RequestFits r
    → parse_list_offsets_request r.header (wire_list_request r ++ rest) ≡ ok (r, rest)
unfolding parse_list_offsets_request wire_list_request
parse_list_offsets_request-wire r rest f =
    simp (append_assoc, reads, ◌>>=◌, f.replica_id)
      (ground (
        arith,
        read_int32-put_uint32 (length r.topics) (wire_all wire_list_topic r.topics ++ rest),
        read_array-wire_all wire_list_topic parse_list_topic TopicFits parse_list_topic-wire
            r.topics rest,
        f.topics,
      ))
