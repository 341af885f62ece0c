-- ===== src/Protocol/Messages/MetadataResponse.antt =====
-- The Metadata response, whose layout depends on the version.
pub mod Client
pub mod Layout
pub mod RoundTrip
use kage.Prelude.{ℕ, Bool, Option, List, Bytes, length, slt16, if◌then◌else◌}
use kage.Protocol.Encoder.{
  Encoder, write_int8, write_int16, write_int32, write_string, write_nullable_string,
}
use kage.Protocol.Arrays.{write_each}

pub record PartitionMetadata : Type 0 where
  pub replicas : List ℕ
  pub isr : List ℕ
  pub offline_replicas : List ℕ
  pub partition : ℕ
  pub leader : ℕ
  pub error_code : ℕ

pub record TopicMetadata : Type 0 where
  pub name : Bytes
  pub partitions : List PartitionMetadata
  pub error_code : ℕ
  pub is_internal : Bool

pub record Broker : Type 0 where
  pub rack : Option Bytes
  pub host : Bytes
  pub node_id : ℕ
  pub port : ℕ

pub record MetadataResponse : Type 0 where
  pub cluster_id : Option Bytes
  pub brokers : List Broker
  pub topics : List TopicMetadata
  pub controller_id : ℕ

-- `if version >= since { step }`, where `since` is a small number.
unfoldable pub since : ℕ → ℕ → (Encoder → Encoder) → Encoder → Encoder
since first version step e = if slt16 version first then e else step e

-- The array of an int32 each.
unfoldable pub write_ids : List ℕ → Encoder → Encoder
write_ids ids e = write_each write_int32 (write_int32 e (length ids)) ids

unfoldable pub write_broker : ℕ → Encoder → Broker → Encoder
write_broker version e b =
    let e1 = write_int32 e b.node_id in
    let e2 = write_string e1 b.host in
    let e3 = write_int32 e2 b.port in since 1 version (λ e'. write_nullable_string e' b.rack) e3

unfoldable pub write_partition_metadata : ℕ → Encoder → PartitionMetadata → Encoder
write_partition_metadata version e p =
    let e1 = write_int16 e p.error_code in
    let e2 = write_int32 e1 p.partition in
    let e3 = write_int32 e2 p.leader in
    let e4 = write_ids p.replicas e3 in
    let e5 = write_ids p.isr e4 in since 5 version (write_ids p.offline_replicas) e5

unfoldable pub write_topic_metadata : ℕ → Encoder → TopicMetadata → Encoder
write_topic_metadata version e t =
    let e1 = write_int16 e t.error_code in
    let e2 = write_string e1 t.name in
    let e3 = since 1 version (λ e'. write_int8 e' (if t.is_internal then 1 else 0)) e2 in
    let e4 = write_int32 e3 (length t.partitions) in
    write_each (write_partition_metadata version) e4 t.partitions

unfoldable pub encode_metadata_response : Encoder → ℕ → ℕ → MetadataResponse → Encoder
encode_metadata_response e correlation_id version resp =
    let e1 = write_int32 e correlation_id in
    let e2 = since 3 version (λ e'. write_int32 e' 0) e1 in
    let e3 = write_int32 e2 (length resp.brokers) in
    let e4 = write_each (write_broker version) e3 resp.brokers in
    let e5 = since 2 version (λ e'. write_nullable_string e' resp.cluster_id) e4 in
    let e6 = since 1 version (λ e'. write_int32 e' resp.controller_id) e5 in
    let e7 = write_int32 e6 (length resp.topics) in
    write_each (write_topic_metadata version) e7 resp.topics
