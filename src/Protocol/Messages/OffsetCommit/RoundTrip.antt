-- ===== src/Protocol/Messages/OffsetCommit/RoundTrip.antt =====
-- An OffsetCommit request on the wire is read back.
use kage.Prelude.{◌<◌, ◌≡◌, ◌++◌, append_assoc, Bytes, length, All, IsU32, IsU64, wire_all}
use kage.Outcome.{ok}
use kage.Binary.{put_uint32, put_uint64}
use kage.Protocol.Encoder.Layout.{wire_string}
use kage.Protocol.Decoder.{◌>>=◌}
use kage.Protocol.Decoder.RoundTrip.{reads}
use kage.Protocol.Arrays.{U32-small, read_array-wire_all}
use kage.Protocol.Messages.OffsetCommit.{
  OffsetCommitPartition, OffsetCommitTopic, OffsetCommitRequest, parse_commit_partition,
  parse_commit_topic, parse_offset_commit_request,
}

unfoldable pub wire_commit_partition : OffsetCommitPartition → Bytes
wire_commit_partition p =
    put_uint32 p.partition ++ (put_uint64 p.committed_offset ++ (wire_string p.committed_metadata))

unfoldable pub wire_commit_topic : OffsetCommitTopic → Bytes
wire_commit_topic t =
    wire_string t.topic_name
    ++ (put_uint32 (length t.partitions) ++ wire_all wire_commit_partition t.partitions)

unfoldable pub wire_commit_request : OffsetCommitRequest → Bytes
wire_commit_request r =
    wire_string r.group_id
    ++ (put_uint32 r.generation_id
        ++ (wire_string r.member_id
            ++ (put_uint64 r.retention_time_ms
                ++ (put_uint32 (length r.topics) ++ (wire_all wire_commit_topic r.topics)))))

pub record PartitionFits (p : OffsetCommitPartition) : Type 0 where
  pub partition : IsU32 p.partition
  pub committed_offset : IsU64 p.committed_offset
  pub committed_metadata : length p.committed_metadata < 0x8000

pub record TopicFits (t : OffsetCommitTopic) : Type 0 where
  pub topic_name : length t.topic_name < 0x8000
  pub partition_count : length t.partitions < 0x8000_0000
  pub partitions : All PartitionFits t.partitions

pub record RequestFits (r : OffsetCommitRequest) : Type 0 where
  pub group_id : length r.group_id < 0x8000
  pub generation_id : IsU32 r.generation_id
  pub member_id : length r.member_id < 0x8000
  pub retention_time_ms : IsU64 r.retention_time_ms
  pub topic_count : length r.topics < 0x8000_0000
  pub topics : All TopicFits r.topics

parse_commit_partition-wire :
    (p : OffsetCommitPartition) (rest : Bytes)
    → PartitionFits p
    → parse_commit_partition (wire_commit_partition p ++ rest) ≡ ok (p, rest)
unfolding parse_commit_partition wire_commit_partition
parse_commit_partition-wire p rest f =
    simp (append_assoc, reads, ◌>>=◌, f.partition, f.committed_offset, f.committed_metadata)

parse_commit_topic-wire :
    (t : OffsetCommitTopic) (rest : Bytes)
    → TopicFits t
    → parse_commit_topic (wire_commit_topic t ++ rest) ≡ ok (t, rest)
unfolding parse_commit_topic wire_commit_topic
parse_commit_topic-wire t rest f = simp (
  append_assoc,
  reads,
  ◌>>=◌,
  f.topic_name,
  U32-small _ f.partition_count,
  read_array-wire_all wire_commit_partition parse_commit_partition PartitionFits
      parse_commit_partition-wire t.partitions rest f.partition_count f.partitions,
)

-- An OffsetCommit request that fits the format is read back as it was sent, whatever follows it.
pub parse_offset_commit_request-wire :
    (r : OffsetCommitRequest) (rest : Bytes)
    → RequestFits r
    → parse_offset_commit_request (wire_commit_request r ++ rest) ≡ ok (r, rest)
unfolding parse_offset_commit_request wire_commit_request
parse_offset_commit_request-wire r rest f = simp (
  append_assoc,
  reads,
  ◌>>=◌,
  f.group_id,
  f.generation_id,
  f.member_id,
  f.retention_time_ms,
  U32-small _ f.topic_count,
  read_array-wire_all wire_commit_topic parse_commit_topic TopicFits parse_commit_topic-wire
      r.topics rest f.topic_count f.topics,
)
