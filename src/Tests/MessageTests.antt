-- ===== src/Tests/MessageTests.antt =====
-- Runs of the Metadata and Produce messages of internal/protocol/messages.go on concrete data.
use kage.Prelude.{◌≡◌, [], ◌∷◌, ◌++◌, arith, Bytes}
use kage.Outcome.{panic}
use kage.Binary.{put_uint32}
use kage.Protocol.Encoder.Layout.{wire_string}
use kage.Protocol.Messages.Header.{RequestHeader}
use kage.Protocol.Messages.Metadata.{parse_metadata_request}
use kage.Protocol.Messages.Panics.{parse_metadata_request_panics, parse_offset_fetch_request_panics}
use kage.Protocol.Messages.OffsetFetch.{parse_offset_fetch_request}

abbrev topic : Bytes
topic = b't' ∷ b'1' ∷ []

abbrev header : RequestHeader
header = record { size = 30; api_key = 3; api_version = 4; correlation_id = 9; client_id = [] }

parse_metadata_request_panics_example :
    parse_metadata_request header (put_uint32 0xffff_ffff ++ (1 ∷ [])) ≡ panic
parse_metadata_request_panics_example =
    parse_metadata_request_panics header 0xffff_ffff (1 ∷ []) (omega arith) (omega arith)

parse_offset_fetch_request_panics_example :
    parse_offset_fetch_request (wire_string topic ++ (put_uint32 0xffff_ffff ++ [])) ≡ panic
parse_offset_fetch_request_panics_example =
    parse_offset_fetch_request_panics topic 0xffff_ffff [] (omega arith) (omega arith) (omega arith)
