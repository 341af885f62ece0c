-- ===== src/Protocol/Messages/Header.antt =====
-- The header of every request.
pub mod RoundTrip
use kage.Prelude.{ℕ, Bytes}
use kage.Protocol.Decoder.{Parser, ◌>>=◌, pure, read_int16, read_int32, read_string}

pub record RequestHeader : Type 0 where
  pub size : ℕ
  pub api_key : ℕ
  pub api_version : ℕ
  pub correlation_id : ℕ
  pub client_id : Bytes

unfoldable pub parse_request_header : Parser RequestHeader
parse_request_header = do
  size ← read_int32
  api_key ← read_int16
  api_version ← read_int16
  correlation_id ← read_int32
  client_id ← read_string
  pure (record {
    size = size;
    api_key = api_key;
    api_version = api_version;
    correlation_id = correlation_id;
    client_id = client_id;
  })
