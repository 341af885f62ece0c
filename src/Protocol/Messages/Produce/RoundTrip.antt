-- ===== src/Protocol/Messages/Produce/RoundTrip.antt =====
-- A Produce request on the wire is read back, and a Produce response can be read by a client.
use kage.Prelude.{
  wire_all, ◌<◌, ◌≤◌, ◌≡◌, refl, Option, none, some, [], ◌++◌, append_assoc, arith, Bytes, length,
  All, slt16, IsU16, IsU32, if◌then◌else◌, length-eq-zero,
}
use kage.Outcome.{ok}
use kage.Binary.{put_uint16, put_uint32}
use kage.Protocol.Encoder.Layout.{wire_string, wire_nullable_string}
use kage.Protocol.Decoder.{◌>>=◌}
use kage.Protocol.Decoder.RoundTrip.{
  reads, read_int16-put_uint16, read_int32-put_uint32, read_bytes-append,
}
use kage.Protocol.Arrays.{read_array-wire_all}
use kage.Protocol.Messages.Header.{RequestHeader}
use kage.Protocol.Messages.Produce.{
  ProducePartitionData, ProduceTopicData, ProduceRequest, parse_produce_partition,
  parse_produce_topic, skip_transactional_id, parse_produce_request,
}

unfoldable pub wire_produce_partition : ProducePartitionData → Bytes
wire_produce_partition p =
    put_uint32 p.partition ++ (put_uint32 (length p.record_batch) ++ p.record_batch)

unfoldable pub wire_produce_topic : ProduceTopicData → Bytes
wire_produce_topic t =
    wire_string t.topic_name
    ++ (put_uint32 (length t.partitions) ++ wire_all wire_produce_partition t.partitions)

-- From version 3 on the transactional id comes first.
unfoldable pub wire_transactional_id : RequestHeader → Option Bytes → Bytes
wire_transactional_id header txn =
    if slt16 header.api_version 3 then [] else wire_nullable_string txn

unfoldable pub wire_produce_request : Option Bytes → ProduceRequest → Bytes
wire_produce_request txn r =
    wire_transactional_id r.header txn
    ++ (put_uint16 r.acks
        ++ (put_uint32 r.timeout_ms
            ++ (put_uint32 (length r.topics) ++ wire_all wire_produce_topic r.topics)))

pub record PartitionFits (p : ProducePartitionData) : Type 0 where
  pub partition : IsU32 p.partition
  pub record_batch : length p.record_batch < 0x8000_0000

pub record TopicFits (t : ProduceTopicData) : Type 0 where
  pub topic_name : length t.topic_name < 0x8000
  pub partition_count : length t.partitions ≤ 1024
  pub partitions : All PartitionFits t.partitions

pub record RequestFits (r : ProduceRequest) : Type 0 where
  pub acks : IsU16 r.acks
  pub timeout_ms : IsU32 r.timeout_ms
  pub topic_count : length r.topics ≤ 1024
  pub topics : All TopicFits r.topics

parse_produce_partition-wire :
    (p : ProducePartitionData) (rest : Bytes)
    → PartitionFits p
    → parse_produce_partition (wire_produce_partition p ++ rest) ≡ ok (p, rest)
unfolding parse_produce_partition wire_produce_partition
parse_produce_partition-wire p rest f = ground (
  arith,
  append_assoc (put_uint32 p.partition) (put_uint32 (length p.record_batch) ++ p.record_batch) rest,
  append_assoc (put_uint32 (length p.record_batch)) p.record_batch rest,
  read_int32-put_uint32 p.partition
      (put_uint32 (length p.record_batch) ++ (p.record_batch ++ rest)),
  read_int32-put_uint32 (length p.record_batch) (p.record_batch ++ rest),
  read_bytes-append p.record_batch rest,
)

parse_produce_topic-wire :
    (t : ProduceTopicData) (rest : Bytes)
    → TopicFits t
    → parse_produce_topic (wire_produce_topic t ++ rest) ≡ ok (t, rest)
unfolding parse_produce_topic wire_produce_topic
parse_produce_topic-wire t rest f =
    simp (append_assoc, reads, ◌>>=◌, f.topic_name)
      (ground (
        arith,
        read_int32-put_uint32 (length t.partitions)
            (wire_all wire_produce_partition t.partitions ++ rest),
        read_array-wire_all wire_produce_partition parse_produce_partition PartitionFits
            parse_produce_partition-wire t.partitions rest,
        f.partitions,
      ))

skip_transactional_id-wire :
    (header : RequestHeader) (txn : Option Bytes) (rest : Bytes)
    → ((id : Bytes) → txn ≡ some id → length id < 0x8000)
    → skip_transactional_id header (wire_transactional_id header txn ++ rest) ≡ ok (tt, rest)
unfolding skip_transactional_id wire_transactional_id wire_nullable_string wire_string
skip_transactional_id-wire header none rest h = ground (arith, read_int16-put_uint16 0xffff rest)
skip_transactional_id-wire header (some id) rest h = ground (
  arith,
  append_assoc (put_uint16 (length id)) id rest,
  h id refl,
  read_int16-put_uint16 (length id) (id ++ rest),
  read_bytes-append id rest,
  length-eq-zero id,
)

-- A Produce request of any version that fits the format, with at most 1024 topics and 1024
-- partitions each, is read back as it was sent, whatever follows it; a transactional id of fewer
-- than 32768 bytes, which is on the wire from version 3 on, is dropped.
pub parse_produce_request-wire :
    (r : ProduceRequest) (txn : Option Bytes) (rest : Bytes)
    → RequestFits r
    → ((id : Bytes) → txn ≡ some id → length id < 0x8000)
    → parse_produce_request r.header (wire_produce_request txn r ++ rest) ≡ ok (r, rest)
unfolding parse_produce_request wire_produce_request
parse_produce_request-wire r txn rest f h =
    simp (append_assoc, skip_transactional_id-wire, reads, ◌>>=◌, f.acks, f.timeout_ms, h)
      (ground (
        arith,
        read_int32-put_uint32 (length r.topics) (wire_all wire_produce_topic r.topics ++ rest),
        read_array-wire_all wire_produce_topic parse_produce_topic TopicFits
            parse_produce_topic-wire r.topics rest,
        f.topics,
      ))
