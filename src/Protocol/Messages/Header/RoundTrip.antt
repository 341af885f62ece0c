-- ===== src/Protocol/Messages/Header/RoundTrip.antt =====
-- A request header on the wire is read back.
use kage.Prelude.{◌<◌, ◌≡◌, ◌++◌, append_assoc, Bytes, length, IsU16, IsU32}
use kage.Outcome.{ok}
use kage.Binary.{put_uint16, put_uint32}
use kage.Protocol.Encoder.Layout.{wire_string}
use kage.Protocol.Decoder.{◌>>=◌}
use kage.Protocol.Decoder.RoundTrip.{reads}
use kage.Protocol.Messages.Header.{RequestHeader, parse_request_header}

-- The layout of the Kafka protocol: the frame size first, then the fields.
unfoldable pub wire_request_header : RequestHeader → Bytes
wire_request_header h =
    put_uint32 h.size
    ++ (put_uint16 h.api_key
        ++ (put_uint16 h.api_version ++ (put_uint32 h.correlation_id ++ wire_string h.client_id)))

pub record Fits (h : RequestHeader) : Type 0 where
  pub size : IsU32 h.size
  pub api_key : IsU16 h.api_key
  pub api_version : IsU16 h.api_version
  pub correlation_id : IsU32 h.correlation_id
  pub client_id : length h.client_id < 0x8000

-- A request header whose fields fit their widths and whose client id has fewer than 32768 bytes
-- is read back as it was sent, whatever follows it.
pub parse_request_header-wire :
    (h : RequestHeader) (rest : Bytes)
    → Fits h
    → parse_request_header (wire_request_header h ++ rest) ≡ ok (h, rest)
unfolding parse_request_header wire_request_header
parse_request_header-wire h rest f =
    simp
      (append_assoc, reads, ◌>>=◌, f.size, f.api_key, f.api_version, f.correlation_id, f.client_id)
