-- ===== src/Tests/MetadataTests.antt =====
-- A run of the Metadata response of internal/protocol/messages.go on concrete data.
use kage.Prelude.{◌≡◌, refl, true, none, [], ◌∷◌, ◌++◌, arith}
use kage.Outcome.{ok}
use kage.Protocol.Encoder.{new_encoder}
use kage.Protocol.Messages.MetadataResponse.{
  PartitionMetadata, MetadataResponse, encode_metadata_response,
}
use kage.Protocol.Messages.MetadataResponse.Client.{client_metadata}
use kage.Protocol.Messages.MetadataResponse.RoundTrip.{
  ResponseFits, client_metadata-encode_metadata_response,
}

abbrev partition : PartitionMetadata
partition = record {
  error_code = 0;
  partition = 2;
  leader = 1;
  replicas = 1 ∷ [];
  isr = 1 ∷ [];
  offline_replicas = [];
}

abbrev response : MetadataResponse
response = record {
  brokers = record { node_id = 1; host = b'h' ∷ []; port = 9092; rack = none } ∷ [];
  cluster_id = none;
  controller_id = 1;
  topics =
      record { error_code = 0; name = b't' ∷ []; partitions = partition ∷ []; is_internal = true }
      ∷ [];
}

response-Fits : ResponseFits 2 response
response-Fits = record {
  broker_count = omega arith;
  brokers = (
    record {
      node_id = omega arith;
      host = omega arith;
      port = omega arith;
      rack = tt;
      rack_since = λ e. refl;
    },
    tt,
  );
  cluster_id = tt;
  cluster_since = λ e. refl;
  controller_id = omega arith;
  controller_since = λ e. cc;
  topic_count = omega arith;
  topics = (
    record {
      error_code = omega arith;
      name = omega arith;
      internal_since = λ e. cc;
      partition_count = omega arith;
      partitions = (
        record {
          error_code = omega arith;
          partition = omega arith;
          leader = omega arith;
          replicas = (omega arith, (omega arith, tt));
          isr = (omega arith, (omega arith, tt));
          offline_replicas = (omega arith, tt);
          offline_since = λ e. refl;
        },
        tt,
      );
    },
    tt,
  );
}

client_metadata-encode_metadata_response_example :
    client_metadata 2 ((encode_metadata_response new_encoder 5 2 response).buffer ++ (9 ∷ []))
    ≡ ok ((5, response), 9 ∷ [])
unfolding new_encoder
client_metadata-encode_metadata_response_example =
    client_metadata-encode_metadata_response 2 new_encoder 5 response (9 ∷ []) (omega arith) refl
      (omega arith) response-Fits
