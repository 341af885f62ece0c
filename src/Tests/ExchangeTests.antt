-- ===== src/Tests/ExchangeTests.antt =====
-- Runs of Produce and Fetch over one broker store on concrete data.
use kage.Prelude.{◌≡◌, refl, some, [], ◌∷◌, ◌++◌, arith, Bytes, bytes_eq}
use kage.Outcome.{ok}
use kage.Binary
use kage.Binary.{put_uint32}
use kage.Crc32.{checksum}
use kage.Decimal.{format_int32, digits, digits_of}
use kage.Protocol.Messages.Fetch.{FetchPartitionData}
use kage.Protocol.Messages.Header.{RequestHeader}
use kage.Protocol.Messages.Produce.{ProducePartitionData, ProducePartitionResponse}
use kage.Protocol.RecordBatch.{validate_record_batch}
use kage.Server.Dispatch.{dispatch}
use kage.Server.Dispatch.Frames.{dispatch-IsReply}
use kage.Server.Dispatch.Framing.{IsReply}
use kage.Server.Exchange.{response, fetch_partition-produce_partition}
use kage.Server.Fetch.{fetch_partition}
use kage.Server.Fetch.Served.{answer}
use kage.Server.OffsetCache.{empty_cache}
use kage.Server.Patch.Batches.{IsWhole}
use kage.Server.Produce
use kage.Server.Produce.{produce_partition}
use kage.Server.Run.{Handler}
use kage.Server.Run.Always.{Returns}
use kage.Slice
use kage.Storage.Bufio
use kage.Storage.Bufio.{new_writer}
use kage.Storage.BrokerStore
use kage.Storage.BrokerStore.{partition_key, find_store}
use kage.Storage.Index
use kage.Storage.Segment
use kage.Storage.Segment.Success.{fresh, fresh-IsLog}
use kage.Storage.Store
use kage.Storage.Store.{PartitionStore}

abbrev zeros8 : Bytes
zeros8 = 0 ∷ 0 ∷ 0 ∷ 0 ∷ 0 ∷ 0 ∷ 0 ∷ 0 ∷ []

abbrev body : Bytes
body = zeros8 ++ (zeros8 ++ (zeros8 ++ (zeros8 ++ (0 ∷ 0 ∷ 0 ∷ 0 ∷ 0 ∷ 0 ∷ 0 ∷ 5 ∷ []))))

-- A sound batch of 61 bytes.
abbrev batch : Bytes
batch =
    zeros8 ++ (put_uint32 49 ++ ((0 ∷ 0 ∷ 0 ∷ 0 ∷ 2 ∷ []) ++ (put_uint32 (checksum body) ++ body)))

batch-IsWhole : IsWhole batch
unfolding put_uint32 Binary.uint32 checksum
batch-IsWhole = record { long_enough = omega arith; exact = refl }

abbrev empty_store : PartitionStore
empty_store = record {
  dir_name = b't' ∷ b'-' ∷ b'3' ∷ [];
  dir = λ _. record { log = []; index = [] };
  cfg = record { max_size = 1000; retention = 0 };
  active = fresh 0 1000;
  next_base = 0;
}

abbrev topic : Bytes
topic = b't' ∷ []

abbrev handler : Handler
handler = record {
  store = record {
    stores = (partition_key topic 3, empty_store) ∷ [];
    disk = λ _ _. record { log = []; index = [] };
    cfg = record { max_size = 1000; retention = 0 };
  };
  offset_cache = empty_cache;
  host = b'h' ∷ [];
}

found : find_store (partition_key topic 3) handler.store.stores ≡ some empty_store
unfolding find_store partition_key format_int32 digits digits_of bytes_eq
found = refl

abbrev part : ProducePartitionData
part = record { partition = 3; record_batch = batch }

abbrev wanted : FetchPartitionData
wanted = record { fetch_offset = 0; partition = 3; partition_max_bytes = 1000 }

abbrev after : Handler
after = record handler {
  store = record handler.store {
    stores = (partition_key topic 3, (Store.append [] empty_store batch).1) ∷ [];
  };
}

abbrev accepted : ProducePartitionResponse
accepted = record { base_offset = 0; partition = 3; error_code = 0 }

produced : produce_partition topic part [] handler ≡ ok (accepted, after, [])
unfolding produce_partition Produce.check_batch Produce.produce_checked Produce.produce_obtained
    Produce.produced validate_record_batch checksum put_uint32 Slice.byte_at Slice.slice_from
    Slice.uint32 Binary.uint32 Slice.slice BrokerStore.get_or_create_partition BrokerStore.obtain
    find_store BrokerStore.put_store partition_key format_int32 digits digits_of bytes_eq
    Store.append Store.append_retry Store.append_active Segment.append Segment.append_record
    Bufio.write new_writer Bufio.write_empty Segment.append_index Index.maybe_append
produced = refl

fetch_partition-produce_partition_example :
    response (fetch_partition topic 500 wanted [] after)
    ≡ some (answer wanted (Store.size (Store.append [] empty_store batch).1) batch 500)
unfolding put_uint32 checksum new_writer
fetch_partition-produce_partition_example =
    fetch_partition-produce_partition topic part [] [] handler after empty_store [] accepted wanted
      500 found (fresh-IsLog 0 1000 (omega arith)) refl (omega arith) batch-IsWhole (omega arith)
      produced refl refl refl (omega arith) (omega arith) (omega arith) (omega arith)

abbrev header : RequestHeader
header = record { size = 10; api_key = 18; api_version = 0; correlation_id = 7; client_id = [] }

dispatch-IsReply_example : Returns (IsReply 7) (dispatch header [] [] handler)
dispatch-IsReply_example = dispatch-IsReply header [] [] handler
