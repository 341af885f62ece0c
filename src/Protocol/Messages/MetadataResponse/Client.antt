-- ===== src/Protocol/Messages/MetadataResponse/Client.antt =====
-- What a client of any version reads from the Metadata response.
use kage.Prelude.{ℕ, false, Option, none, some, List, [], Bytes, slt16, is_neg16, if◌then◌else◌}
use kage.Protocol.Decoder.{
  Parser, ◌>>=◌, ◌>>◌, pure, read_int16, read_int32, read_bool, read_string, read_bytes,
}
use kage.Protocol.Arrays.{read_array}
use kage.Protocol.Messages.MetadataResponse.{
  PartitionMetadata, TopicMetadata, Broker, MetadataResponse,
}

-- A field that is on the wire from version `first` on, and has the value `absent` before.
unfoldable pub from : {A : Type 0} → ℕ → ℕ → Parser A → A → Parser A
from first version item absent = if slt16 version first then pure absent else item

unfoldable pub read_nullable_string : Parser (Option Bytes)
read_nullable_string = do
  size ← read_int16
  if is_neg16 size then pure none else do s ← read_bytes size; pure (some s)

unfoldable pub client_ids : Parser (List ℕ)
client_ids = do count ← read_int32; read_array count read_int32

unfoldable pub client_broker : ℕ → Parser Broker
client_broker version = do
  node_id ← read_int32
  host ← read_string
  port ← read_int32
  rack ← from 1 version read_nullable_string none
  pure (record { rack = rack; host = host; node_id = node_id; port = port })

unfoldable pub client_partition_metadata : ℕ → Parser PartitionMetadata
client_partition_metadata version = do
  error_code ← read_int16
  partition ← read_int32
  leader ← read_int32
  replicas ← client_ids
  isr ← client_ids
  offline_replicas ← from 5 version client_ids []
  pure (record {
    replicas = replicas;
    isr = isr;
    offline_replicas = offline_replicas;
    partition = partition;
    leader = leader;
    error_code = error_code;
  })

unfoldable pub client_topic_metadata : ℕ → Parser TopicMetadata
client_topic_metadata version = do
  error_code ← read_int16
  name ← read_string
  is_internal ← from 1 version read_bool false
  count ← read_int32
  partitions ← read_array count (client_partition_metadata version)
  pure (record {
    name = name;
    partitions = partitions;
    error_code = error_code;
    is_internal = is_internal;
  })

unfoldable pub client_metadata : ℕ → Parser (ℕ × MetadataResponse)
client_metadata version = do
  correlation_id ← read_int32
  from 3 version read_int32 0
  broker_count ← read_int32
  brokers ← read_array broker_count (client_broker version)
  cluster_id ← from 2 version read_nullable_string none
  controller_id ← from 1 version read_int32 0
  topic_count ← read_int32
  topics ← read_array topic_count (client_topic_metadata version)
  pure (
    correlation_id,
    record {
      cluster_id = cluster_id;
      brokers = brokers;
      topics = topics;
      controller_id = controller_id;
    },
  )
