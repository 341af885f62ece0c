-- ===== src/Protocol/Messages/Fetch/RoundTrip.antt =====
-- A Fetch request on the wire is read back.
use kage.Prelude.{
  wire_all, ◌<◌, ◌≡◌, ◌∷◌, ◌++◌, append_assoc, Bytes, length, All, IsByte, IsU32, IsU64,
}
use kage.Outcome.{ok}
use kage.Binary.{put_uint32, put_uint64}
use kage.Protocol.Encoder.Layout.{wire_string}
use kage.Protocol.Decoder.{◌>>=◌}
use kage.Protocol.Decoder.RoundTrip.{reads}
use kage.Protocol.Arrays.{U32-small, read_array-wire_all}
use kage.Protocol.Messages.Fetch.{
  FetchPartitionData, FetchTopicData, FetchRequest, parse_fetch_partition, parse_fetch_topic,
  parse_fetch_request,
}

unfoldable pub wire_fetch_partition : FetchPartitionData → Bytes
wire_fetch_partition p =
    put_uint32 p.partition ++ (put_uint64 p.fetch_offset ++ put_uint32 p.partition_max_bytes)

unfoldable pub wire_fetch_topic : FetchTopicData → Bytes
wire_fetch_topic t =
    wire_string t.topic_name
    ++ (put_uint32 (length t.partitions) ++ wire_all wire_fetch_partition t.partitions)

unfoldable pub wire_fetch_request : FetchRequest → Bytes
wire_fetch_request r =
    put_uint32 r.replica_id
    ++ (put_uint32 r.max_wait_ms
        ++ (put_uint32 r.min_bytes
            ++ (put_uint32 r.max_bytes
                ++ (r.isolation_level
                    ∷ (put_uint32 (length r.topics) ++ wire_all wire_fetch_topic r.topics)))))

pub record PartitionFits (p : FetchPartitionData) : Type 0 where
  pub partition : IsU32 p.partition
  pub fetch_offset : IsU64 p.fetch_offset
  pub partition_max_bytes : IsU32 p.partition_max_bytes

pub record TopicFits (t : FetchTopicData) : Type 0 where
  pub topic_name : length t.topic_name < 0x8000
  pub partition_count : length t.partitions < 0x8000_0000
  pub partitions : All PartitionFits t.partitions

pub record RequestFits (r : FetchRequest) : Type 0 where
  pub replica_id : IsU32 r.replica_id
  pub max_wait_ms : IsU32 r.max_wait_ms
  pub min_bytes : IsU32 r.min_bytes
  pub max_bytes : IsU32 r.max_bytes
  pub isolation_level : IsByte r.isolation_level
  pub topic_count : length r.topics < 0x8000_0000
  pub topics : All TopicFits r.topics

parse_fetch_partition-wire :
    (p : FetchPartitionData) (rest : Bytes)
    → PartitionFits p
    → parse_fetch_partition (wire_fetch_partition p ++ rest) ≡ ok (p, rest)
unfolding parse_fetch_partition wire_fetch_partition
parse_fetch_partition-wire p rest f =
    simp (append_assoc, reads, ◌>>=◌, f.partition, f.fetch_offset, f.partition_max_bytes)

parse_fetch_topic-wire :
    (t : FetchTopicData) (rest : Bytes)
    → TopicFits t
    → parse_fetch_topic (wire_fetch_topic t ++ rest) ≡ ok (t, rest)
unfolding parse_fetch_topic wire_fetch_topic
parse_fetch_topic-wire t rest f = simp (
  append_assoc,
  reads,
  ◌>>=◌,
  f.topic_name,
  U32-small _ f.partition_count,
  read_array-wire_all wire_fetch_partition parse_fetch_partition PartitionFits
      parse_fetch_partition-wire t.partitions rest f.partition_count f.partitions,
)

-- A Fetch request that fits the format is read back as it was sent, whatever follows it.
pub parse_fetch_request-wire :
    (r : FetchRequest) (rest : Bytes)
    → RequestFits r
    → parse_fetch_request r.header (wire_fetch_request r ++ rest) ≡ ok (r, rest)
unfolding parse_fetch_request wire_fetch_request
parse_fetch_request-wire r rest f = simp (
  append_assoc,
  reads,
  ◌>>=◌,
  f.replica_id,
  f.max_wait_ms,
  f.min_bytes,
  f.max_bytes,
  U32-small _ f.topic_count,
  read_array-wire_all wire_fetch_topic parse_fetch_topic TopicFits parse_fetch_topic-wire r.topics
      rest f.topic_count f.topics,
)
