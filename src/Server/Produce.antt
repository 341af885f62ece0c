-- ===== src/Server/Produce.antt =====
-- `handleProduce` of internal/server/handler.go.
use kage.Prelude.{ℕ, ◌==◌, List, [], Bytes, length, if◌then◌else◌}
use kage.Outcome.{Outcome, ok, err, panic}
use kage.Protocol.Error.{ProtocolError}
use kage.Protocol.Decoder.{Stream}
use kage.Protocol.Encoder.{new_encoder, full_message}
use kage.Protocol.RecordBatch.{BatchError, validate_record_batch}
use kage.Protocol.Messages.Constants.{acks_none, err_code_corrupt_message}
use kage.Protocol.Messages.Header.{RequestHeader}
use kage.Protocol.Messages.Produce.{
  ProducePartitionData, ProduceTopicData, ProduceRequest, ProducePartitionResponse,
  ProduceTopicResponse, parse_produce_request, encode_produce_response,
}
use kage.Server.Run.{Handler, Run, ◌>>=◌, pure, parsed, each, Reply}
use kage.Storage.Error.{StorageError}
use kage.Storage.Bufio.{Os}
use kage.Storage.Store
use kage.Storage.Store.{PartitionStore}
use kage.Storage.BrokerStore.{BrokerStore, partition_key, put_store, get_or_create_partition}

-- An error's response has a base offset of -1.
abbrev pub refused : ℕ → ℕ → ProducePartitionResponse
refused partition error_code = record {
  base_offset = 0xffff_ffff_ffff_ffff;
  partition = partition;
  error_code = error_code;
}

-- What follows the append; the partition's store, changed as it is, goes back into the map.
unfoldable pub produced :
    Bytes
    → ℕ
    → Handler
    → BrokerStore
    → Outcome StorageError ℕ × PartitionStore × Os
    → Outcome ProtocolError (ProducePartitionResponse × Handler × Os)
produced key partition h bs (ok offset, ps, os) = ok (
  record { base_offset = offset; partition = partition; error_code = 0 },
  record h { store = record bs { stores = put_store key ps bs.stores } },
  os,
)
produced key partition h bs (err _, ps, os) = ok (
  refused partition 1,
  record h { store = record bs { stores = put_store key ps bs.stores } },
  os,
)
produced key partition h bs (panic, ps, os) = panic

unfoldable pub produce_obtained :
    Bytes
    → ProducePartitionData
    → Handler
    → Outcome StorageError PartitionStore × BrokerStore × Os
    → Outcome ProtocolError (ProducePartitionResponse × Handler × Os)
produce_obtained topic part h (ok ps, bs, os) =
    produced (partition_key topic part.partition) part.partition h bs
      (Store.append os ps part.record_batch)
produce_obtained topic part h (err _, bs, os) =
    ok (refused part.partition 1, record h { store = bs }, os)
produce_obtained topic part h (panic, bs, os) = panic

-- What follows the check of the batch.
unfoldable pub produce_checked :
    Bytes → ProducePartitionData → Outcome BatchError ℕ → Run ProducePartitionResponse
produce_checked topic part (ok _) os h =
    produce_obtained topic part h (get_or_create_partition os h.store topic part.partition)
produce_checked topic part (err _) os h =
    ok (refused part.partition err_code_corrupt_message, h, os)
produce_checked topic part panic os h = panic

-- An empty batch is not checked.
unfoldable pub check_batch : Bytes → Outcome BatchError ℕ
check_batch batch = if length batch == 0 then ok 0 else validate_record_batch batch

unfoldable pub produce_partition : Bytes → ProducePartitionData → Run ProducePartitionResponse
produce_partition topic part = produce_checked topic part (check_batch part.record_batch)

unfoldable pub produce_topic : ProduceTopicData → Run ProduceTopicResponse
produce_topic t = do
  partitions ← each (produce_partition t.topic_name) t.partitions
  pure (record { topic_name = t.topic_name; partitions = partitions })

-- With acks 0 nothing is written.
unfoldable pub produce_reply : RequestHeader → ProduceRequest → List ProduceTopicResponse → Bytes
produce_reply header req topics =
    if req.acks == acks_none
    then []
    else full_message
        (encode_produce_response new_encoder header.correlation_id (record { topics = topics }))

unfoldable pub handle_produce : RequestHeader → Stream → Run Reply
handle_produce header s = do
  (req, s') ← parsed (parse_produce_request header s)
  topics ← each produce_topic req.topics
  pure (produce_reply header req topics, s')
