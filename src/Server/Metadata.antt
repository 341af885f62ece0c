-- ===== src/Server/Metadata.antt =====
-- `handleMetadata` of internal/server/handler.go.
use kage.Prelude.{ℕ, false, none, List, [], ◌∷◌, ◌++◌, Bytes, bytes_eq, if◌then◌else◌}
use kage.Outcome.{Outcome, ok, err, panic}
use kage.Protocol.Error.{ProtocolError}
use kage.Protocol.Decoder.{Stream}
use kage.Protocol.Encoder.{new_encoder, full_message}
use kage.Protocol.Messages.Header.{RequestHeader}
use kage.Protocol.Messages.Metadata.{parse_metadata_request}
use kage.Protocol.Messages.MetadataResponse.{
  PartitionMetadata, TopicMetadata, MetadataResponse, encode_metadata_response,
}
use kage.Server.Run.{Handler, Run, ◌>>=◌, pure, parsed, each, Reply}
use kage.Storage.Error.{StorageError}
use kage.Storage.Bufio.{Os}
use kage.Storage.Store.{PartitionStore}
use kage.Storage.BrokerStore.{BrokerStore, TopicPartition, get_or_create_partition, topics}

-- A topic that cannot be made is passed over.
unfoldable pub ensured :
    Handler
    → Outcome StorageError PartitionStore × BrokerStore × Os
    → Outcome ProtocolError (Unit {0} × Handler × Os)
ensured h (ok _, bs, os) = ok (tt, record h { store = bs }, os)
ensured h (err _, bs, os) = ok (tt, record h { store = bs }, os)
ensured h (panic, bs, os) = panic

unfoldable pub ensure_topic : Bytes → Run (Unit {0})
ensure_topic topic os h = ensured h (get_or_create_partition os h.store topic 0)

-- One partition goes to the entry of its topic; the order of the topics is that in which they are
-- met, where Go's map has none.
unfoldable pub add_partition : TopicPartition → List (Bytes × List ℕ) → List (Bytes × List ℕ)
add_partition tp [] = (tp.topic, tp.partition ∷ []) ∷ []
add_partition tp ((topic, partitions) ∷ rest) =
    if bytes_eq topic tp.topic
    then (topic, partitions ++ tp.partition ∷ []) ∷ rest
    else (topic, partitions) ∷ add_partition tp rest

unfoldable pub by_topic : List TopicPartition → List (Bytes × List ℕ) → List (Bytes × List ℕ)
by_topic [] acc = acc
by_topic (tp ∷ tps) acc = by_topic tps (add_partition tp acc)

-- This broker is the leader and the only replica.
unfoldable pub partition_metadata : List ℕ → List PartitionMetadata
partition_metadata [] = []
partition_metadata (pid ∷ pids) =
    record {
      error_code = 0;
      partition = pid;
      leader = 1;
      replicas = 1 ∷ [];
      isr = 1 ∷ [];
      offline_replicas = [];
    }
    ∷ partition_metadata pids

unfoldable pub topic_metadata : List (Bytes × List ℕ) → List TopicMetadata
topic_metadata [] = []
topic_metadata ((topic, pids) ∷ rest) =
    record {
      error_code = 0;
      name = topic;
      partitions = partition_metadata pids;
      is_internal = false;
    }
    ∷ topic_metadata rest

unfoldable pub metadata_of : Handler → MetadataResponse
metadata_of h = record {
  brokers = record { node_id = 1; host = h.host; port = 9092; rack = none } ∷ [];
  cluster_id = none;
  controller_id = 1;
  topics = topic_metadata (by_topic (topics h.store) []);
}

unfoldable pub handle_metadata : RequestHeader → Stream → Run Reply
handle_metadata header s = do
  (req, s') ← parsed (parse_metadata_request header s)
  _ ← each ensure_topic req.topics
  λ os h.
      pure
        (
          full_message (
              encode_metadata_response new_encoder header.correlation_id header.api_version
                (metadata_of h)),
          s',
        )
        os h
