-- ===== src/Protocol/Messages/Metadata.antt =====
-- The Metadata request.
pub mod RoundTrip
use kage.Prelude.{ℕ, true, false, List, Bytes, slt16, if◌then◌else◌}
use kage.Protocol.Decoder.{Parser, ◌>>=◌, ◌>>◌, pure, read_int32, read_bool, read_string}
use kage.Protocol.Arrays.{read_array}
use kage.Protocol.Messages.Header.{RequestHeader}

pub record MetadataRequest : Type 0 where
  pub header : RequestHeader
  pub topics : List Bytes

-- From version 4 on `allow_auto_topic_creation` follows; it is read and dropped.
unfoldable pub skip_auto_creation : RequestHeader → Parser (Unit {0})
skip_auto_creation header = if slt16 header.api_version 4 then pure tt else do read_bool; pure tt

unfoldable pub parse_metadata_request : RequestHeader → Parser MetadataRequest
parse_metadata_request header = do
  count ← read_int32
  topics ← read_array count read_string
  skip_auto_creation header
  pure (record { header = header; topics = topics })
