-- ===== src/Server/Fetch.antt =====
-- `handleFetch` of internal/server/handler.go.
pub mod Budget
pub mod Served
pub mod Consistent
use kage.Prelude.{
  ℕ, ◌+◌, ◌%◌, Bool, ◌||◌, Option, none, some, List, [], ◌∷◌, Bytes, length, drop, ltb, slt32,
  slt64, is_neg32, add32, sub32, ◌==◌, if◌then◌else◌,
}
use kage.Outcome.{Outcome, ok, err, panic}
use kage.Protocol.Messages.Constants.{err_code_none, err_code_offset_out_of_range}
use kage.Protocol.Messages.Fetch.{
  FetchPartitionData, FetchTopicData, FetchRequest, FetchPartitionResponse, FetchTopicResponse,
  FetchResponse, parse_fetch_request, write_fetch_response,
}
use kage.Protocol.Messages.Header.{RequestHeader}
use kage.Protocol.Decoder.{Stream}
use kage.Protocol.Error.{ProtocolError}
use kage.Server.Patch.{patch_batches, rec_hdr}
use kage.Server.Run.{Handler, Run, ◌>>=◌, pure, parsed, Reply}
use kage.Storage.Error.{StorageError}
use kage.Storage.Bufio.{Os}
use kage.Storage.Segment.{Section, read_section}
use kage.Storage.Store
use kage.Storage.Store.{PartitionStore}
use kage.Storage.BrokerStore.{BrokerStore, partition_key, put_store, get_or_create_partition}

-- A response with no batch; -1 is the batch size of none.
abbrev pub without_batch : ℕ → ℕ → ℕ → FetchPartitionResponse
without_batch partition high_watermark error_code = record {
  record_batch = none;
  high_watermark = high_watermark;
  batch_size = 0xffff_ffff;
  partition = partition;
  error_code = error_code;
}

-- The record's bytes without the header that they have on disk, and with the base offsets patched.
unfoldable pub serve_raw : ℕ → FetchPartitionData → ℕ → Option Bytes → FetchPartitionResponse × ℕ
serve_raw remaining part size none =
    (without_batch part.partition size err_code_offset_out_of_range, remaining)
serve_raw remaining part size (some raw) =
    let payload = patch_batches part.fetch_offset (drop rec_hdr raw) in
    let payload_len = length payload % 0x1_0000_0000 in
    if ltb (length raw) rec_hdr
    then (without_batch part.partition size err_code_offset_out_of_range, remaining)
    else (
      record {
        record_batch = some payload;
        high_watermark = size;
        batch_size = payload_len;
        partition = part.partition;
        error_code = err_code_none;
      },
      sub32 remaining payload_len,
    )

-- What follows the read of the store: io.ReadFull of the `n` bytes that it promised.
unfoldable pub serve_read :
    ℕ
    → FetchPartitionData
    → ℕ
    → Outcome StorageError (Section × ℕ) × PartitionStore × Os
    → Outcome ProtocolError (FetchPartitionResponse × ℕ) × PartitionStore × Os
serve_read remaining part size (ok (section, n), ps, os) =
    let (raw, os') = read_section os ps.active section n in
    (ok (serve_raw remaining part size raw), ps, os')
serve_read remaining part size (err _, ps, os) =
    (ok (without_batch part.partition size err_code_offset_out_of_range, remaining), ps, os)
serve_read remaining part size (panic, ps, os) = (panic, ps, os)

-- The body of the loop over the partitions, from where their store has been found; with the
-- response comes what remains of the request's budget. The sum with `rec_hdr` is one of int32.
unfoldable pub fetch_from :
    ℕ
    → FetchPartitionData
    → Os
    → PartitionStore
    → Outcome ProtocolError (FetchPartitionResponse × ℕ) × PartitionStore × Os
fetch_from remaining part os ps =
    let size = Store.size ps in
    let cap =
      if slt32 remaining part.partition_max_bytes then remaining else part.partition_max_bytes in
    if part.fetch_offset == size
    then (ok (without_batch part.partition size err_code_none, remaining), ps, os)
    else if slt64 size part.fetch_offset
    then (ok (without_batch part.partition size err_code_offset_out_of_range, remaining), ps, os)
    else if is_neg32 cap || cap == 0
    then (ok (without_batch part.partition size err_code_none, remaining), ps, os)
    else serve_read remaining part size (Store.read os ps part.fetch_offset (add32 cap rec_hdr))

-- The partition's store, changed as it is, goes back into the map.
unfoldable pub fetched :
    Bytes
    → Handler
    → BrokerStore
    → Outcome ProtocolError (FetchPartitionResponse × ℕ) × PartitionStore × Os
    → Outcome ProtocolError ((FetchPartitionResponse × ℕ) × Handler × Os)
fetched key h bs (ok r, ps, os) =
    ok (r, record h { store = record bs { stores = put_store key ps bs.stores } }, os)
fetched key h bs (err e, ps, os) = err e
fetched key h bs (panic, ps, os) = panic

-- Once the store of the partition has been asked for.
unfoldable pub fetch_obtained :
    Bytes
    → ℕ
    → FetchPartitionData
    → Handler
    → Outcome StorageError PartitionStore × BrokerStore × Os
    → Outcome ProtocolError ((FetchPartitionResponse × ℕ) × Handler × Os)
fetch_obtained topic remaining part h (ok ps, bs, os) =
    fetched (partition_key topic part.partition) h bs (fetch_from remaining part os ps)
fetch_obtained topic remaining part h (err _, bs, os) = ok (
  (without_batch part.partition 0 err_code_offset_out_of_range, remaining),
  record h { store = bs },
  os,
)
fetch_obtained topic remaining part h (panic, bs, os) = panic

unfoldable pub fetch_partition : Bytes → ℕ → FetchPartitionData → Run (FetchPartitionResponse × ℕ)
fetch_partition topic remaining part os h =
    fetch_obtained topic remaining part h (get_or_create_partition os h.store topic part.partition)

-- The loops hand on what remains of the budget.
unfoldable pub fetch_partitions :
    Bytes → ℕ → List FetchPartitionData → Run (List FetchPartitionResponse × ℕ)
fetch_partitions topic remaining [] = pure ([], remaining)
fetch_partitions topic remaining (part ∷ parts) = do
  (resp, left) ← fetch_partition topic remaining part
  (rest, left') ← fetch_partitions topic left parts
  pure (resp ∷ rest, left')

unfoldable pub fetch_topics : ℕ → List FetchTopicData → Run (List FetchTopicResponse × ℕ)
fetch_topics remaining [] = pure ([], remaining)
fetch_topics remaining (t ∷ ts) = do
  (resp, left) ← fetch_partitions t.topic_name remaining t.partitions
  (rest, left') ← fetch_topics left ts
  pure (record { topic_name = t.topic_name; partitions = resp } ∷ rest, left')

unfoldable pub handle_fetch : RequestHeader → Stream → Run Reply
handle_fetch header s = do
  (req, s') ← parsed (parse_fetch_request header s)
  (resp, _) ← fetch_topics req.max_bytes req.topics
  pure (
    write_fetch_response [] header.correlation_id (record { topics = resp; throttle_time_ms = 0 }),
    s',
  )
