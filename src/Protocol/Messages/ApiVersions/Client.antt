-- ===== src/Protocol/Messages/ApiVersions/Client.antt =====
-- What a client reads from the ApiVersions response.
use kage.Prelude.{ℕ, ◌≡◌, List, [], ◌++◌, append_assoc, arith, Bytes, All, IsU16, IsU32, wire_all}
use kage.Outcome.{ok}
use kage.Binary.{put_uint16}
use kage.Protocol.Encoder.{Encoder}
use kage.Protocol.Encoder.Layout.{layout}
use kage.Protocol.Decoder.{Parser, ◌>>=◌, ◌>>◌, pure, read_int16, read_int32}
use kage.Protocol.Decoder.RoundTrip.{reads, read_int16-put_uint16, read_int32-put_uint32}
use kage.Protocol.Arrays.{read_array, read_array-wire_all, buffer-write_each}
use kage.Protocol.Messages.ApiVersions.{
  ApiVersion, supported_api_versions, write_api_version, encode_api_versions_response,
}

unfoldable pub client_api_version : Parser ApiVersion
client_api_version = do
  key ← read_int16
  min_version ← read_int16
  max_version ← read_int16
  pure (record { key = key; min_version = min_version; max_version = max_version })

-- The correlation id, the error code and the table; the throttle time is dropped.
unfoldable pub client_api_versions : Parser (ℕ × ℕ × List ApiVersion)
client_api_versions = do
  correlation_id ← read_int32
  error_code ← read_int16
  count ← read_int32
  versions ← read_array count client_api_version
  read_int32
  pure (correlation_id, error_code, versions)

pub record VersionFits (v : ApiVersion) : Type 0 where
  pub key : IsU16 v.key
  pub min_version : IsU16 v.min_version
  pub max_version : IsU16 v.max_version

unfoldable wire_api_version : ApiVersion → Bytes
wire_api_version v = put_uint16 v.key ++ (put_uint16 v.min_version ++ put_uint16 v.max_version)

buffer-write_api_version :
    (e : Encoder) (v : ApiVersion) → (write_api_version e v).buffer ≡ e.buffer ++ wire_api_version v
unfolding write_api_version wire_api_version
buffer-write_api_version e v = simp layout

client_api_version-wire_api_version :
    (v : ApiVersion) (rest : Bytes)
    → VersionFits v
    → client_api_version (wire_api_version v ++ rest) ≡ ok (v, rest)
unfolding client_api_version wire_api_version
client_api_version-wire_api_version v rest f =
    simp (append_assoc, reads, ◌>>=◌, f.key, f.min_version, f.max_version)

table-VersionFits : All VersionFits supported_api_versions
table-VersionFits = omega arith

read_table :
    (rest : Bytes)
    → read_array 12 client_api_version (wire_all wire_api_version supported_api_versions ++ rest)
      ≡ ok (supported_api_versions, rest)
read_table rest =
    read_array-wire_all wire_api_version client_api_version VersionFits
      client_api_version-wire_api_version supported_api_versions rest (omega arith)
      table-VersionFits

-- A client that reads the ApiVersions response encoded into an empty buffer gets the correlation id,
-- an error code of 0 and the whole table of supported versions, whatever follows, when the id fits
-- 32 bits.
pub client_api_versions-encode_api_versions_response :
    (e : Encoder) (id : ℕ) (rest : Bytes)
    → e.buffer ≡ []
    → IsU32 id
    → client_api_versions ((encode_api_versions_response e id).buffer ++ rest)
      ≡ ok ((id, 0, supported_api_versions), rest)
unfolding encode_api_versions_response client_api_versions
client_api_versions-encode_api_versions_response e id rest empty h =
    let no_error = λ (s : Bytes). read_int16-put_uint16 0 s (omega arith) in
    let count = λ (s : Bytes). read_int32-put_uint32 12 s (omega arith) in
    let no_throttle = λ (s : Bytes). read_int32-put_uint32 0 s (omega arith) in
    simp (
      layout,
      buffer-write_each wire_api_version write_api_version buffer-write_api_version,
      empty,
      reads,
      no_error,
      count,
      no_throttle,
      read_table,
      ◌>>=◌,
      h,
    )
