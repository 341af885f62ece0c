-- ===== src/Tests/ProtocolTests.antt =====
-- Runs of internal/protocol on concrete data.
use kage.Prelude.{
  bytes_eq, ℕ, ◌<◌, ◌≤◌, ◌≡◌, ◌↔◌, refl, none, [], ◌∷◌, ◌++◌, arith, Bytes, length, get_or,
}
use kage.Outcome.{ok, panic}
use kage.Binary
use kage.Slice
use kage.Binary.{put_uint32, put_uint64}
use kage.Crc32.{checksum}
use kage.Protocol.RecordBatch.{validate_record_batch}
use kage.Protocol.RecordBatch.Check.{
  IsSound, records_count, length_field, validate_record_batch_accepts, validate_record_batch_panics,
}
use kage.Protocol.Messages.Header.{RequestHeader}
use kage.Protocol.Messages.Produce.{ProduceRequest, parse_produce_request}
use kage.Protocol.Messages.Produce.RoundTrip.{
  RequestFits, wire_produce_request, parse_produce_request-wire,
}
use kage.Decimal.{format_int32, digits, digits_of}
use kage.Server.Exchange.Isolation.{Kept, handle_produce-Keeps}
use kage.Server.OffsetCache.{empty_cache}
use kage.Server.Produce.{handle_produce}
use kage.Server.Run.{Handler}
use kage.Storage.BrokerStore.{partition_key}
use kage.Protocol.Messages.Fetch.{FetchRequest, parse_fetch_request}
use kage.Protocol.Messages.Fetch.RoundTrip.{wire_fetch_request, parse_fetch_request-wire}

abbrev zeros8 : Bytes
zeros8 = 0 ∷ 0 ∷ 0 ∷ 0 ∷ 0 ∷ 0 ∷ 0 ∷ 0 ∷ []

-- Attributes, offset delta, timestamps and producer, all 0, and a records count of 5.
abbrev body : Bytes
body = zeros8 ++ (zeros8 ++ (zeros8 ++ (zeros8 ++ (0 ∷ 0 ∷ 0 ∷ 0 ∷ 0 ∷ 0 ∷ 0 ∷ 5 ∷ []))))

-- A batch of 61 bytes with the given length field and CRC.
abbrev batch : ℕ → ℕ → Bytes
batch length' crc =
    zeros8 ++ (put_uint32 length' ++ ((0 ∷ 0 ∷ 0 ∷ 0 ∷ 2 ∷ []) ++ (put_uint32 crc ++ body)))

-- The batch with its own CRC is accepted, with another one it is not, and a length field of 0
-- panics.
validate_record_batch_sound : validate_record_batch (batch 49 (checksum body)) ≡ ok 5
unfolding validate_record_batch checksum put_uint32 Slice.byte_at Slice.slice_from Slice.uint32
    Binary.uint32 Slice.slice
validate_record_batch_sound = refl

validate_record_batch_accepts_example :
    (validate_record_batch (batch 49 (checksum body)) ≡ ok 5)
    ↔ (IsSound (batch 49 (checksum body)) × (5 ≡ records_count (batch 49 (checksum body))))
validate_record_batch_accepts_example = validate_record_batch_accepts (batch 49 (checksum body)) 5

validate_record_batch_panics_example :
    (validate_record_batch (batch 0 0) ≡ panic)
    ↔ ((61 ≤ length (batch 0 0)) × (get_or (batch 0 0) 16 0 ≡ 2) × (length_field (batch 0 0) < 9))
validate_record_batch_panics_example = validate_record_batch_panics (batch 0 0)

abbrev header : RequestHeader
header = record {
  size = 30;
  api_key = 0;
  api_version = 3;
  correlation_id = 9;
  client_id = b'c' ∷ b'l' ∷ [];
}

abbrev produce : ProduceRequest
produce = record {
  header = header;
  acks = 1;
  timeout_ms = 1000;
  topics =
      record {
        topic_name = b't' ∷ [];
        partitions = record { partition = 2; record_batch = zeros8 } ∷ [];
      }
      ∷ [];
}

produce-RequestFits : RequestFits produce
produce-RequestFits = record {
  acks = omega arith;
  timeout_ms = omega arith;
  topic_count = omega arith;
  topics = (
    record {
      topic_name = omega arith;
      partition_count = omega arith;
      partitions = (record { partition = omega arith; record_batch = omega arith }, tt);
    },
    tt,
  );
}

parse_produce_request-wire_example :
    parse_produce_request header (wire_produce_request none produce ++ []) ≡ ok (produce, [])
parse_produce_request-wire_example =
    parse_produce_request-wire produce none [] produce-RequestFits (λ id e. absurd (ground arith))

produce_parsed :
    parse_produce_request header (wire_produce_request none produce ++ []) ≡ ok (produce, [])
produce_parsed =
    parse_produce_request-wire produce none [] produce-RequestFits (λ id e. absurd (ground arith))

-- The partition 3 of the topic, which the request does not name.
abbrev other : Bytes
other = partition_key (b't' ∷ []) 3

abbrev handler : Handler
handler = record {
  store = record {
    stores = [];
    disk = λ _ _. record { log = []; index = [] };
    cfg = record { max_size = 100; retention = 0 };
  };
  offset_cache = empty_cache;
  host = b'h' ∷ [];
}

handle_produce-Keeps_example :
    Kept other handler (handle_produce header (wire_produce_request none produce ++ []) [] handler)
unfolding partition_key format_int32 digits digits_of bytes_eq
handle_produce-Keeps_example =
    handle_produce-Keeps header (wire_produce_request none produce ++ []) [] produce other
      produce_parsed ((refl, tt), tt) [] handler

abbrev fetch : FetchRequest
fetch = record {
  header = header;
  replica_id = 0xffff_ffff;
  max_wait_ms = 500;
  min_bytes = 1;
  max_bytes = 1000;
  isolation_level = 0;
  topics =
      record {
        topic_name = b't' ∷ [];
        partitions = record { partition = 2; fetch_offset = 7; partition_max_bytes = 100 } ∷ [];
      }
      ∷ [];
}

parse_fetch_request-wire_example :
    parse_fetch_request header (wire_fetch_request fetch ++ []) ≡ ok (fetch, [])
parse_fetch_request-wire_example = parse_fetch_request-wire fetch [] (record {
  replica_id = omega arith;
  max_wait_ms = omega arith;
  min_bytes = omega arith;
  max_bytes = omega arith;
  isolation_level = omega arith;
  topic_count = omega arith;
  topics = (
    record {
      topic_name = omega arith;
      partition_count = omega arith;
      partitions = (
        record {
          partition = omega arith;
          fetch_offset = omega arith;
          partition_max_bytes = omega arith;
        },
        tt,
      );
    },
    tt,
  );
})
