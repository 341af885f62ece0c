-- ===== src/Protocol/Messages/ApiVersions.antt =====
-- The ApiVersions response and its table of supported versions.
pub mod Client
use kage.Prelude.{ℕ, List, [], ◌∷◌, length}
use kage.Protocol.Encoder.{Encoder, write_int16, write_int32}
use kage.Protocol.Arrays.{write_each}
use kage.Protocol.Messages.Constants.{
  api_key_produce, api_key_fetch, api_key_list_offsets, api_key_metadata, api_key_offset_commit,
  api_key_offset_fetch, api_key_find_coordinator, api_key_join_group, api_key_heartbeat,
  api_key_leave_group, api_key_sync_group, api_key_api_versions, err_code_none,
}

pub record ApiVersion : Type 0 where
  pub key : ℕ
  pub min_version : ℕ
  pub max_version : ℕ

abbrev range : ℕ → ℕ → ApiVersion
range key max_version = record { key = key; min_version = 0; max_version = max_version }

abbrev pub supported_api_versions : List ApiVersion
supported_api_versions =
    range api_key_produce 3
    ∷ range api_key_fetch 4
    ∷ range api_key_list_offsets 1
    ∷ range api_key_metadata 9
    ∷ range api_key_offset_commit 2
    ∷ range api_key_offset_fetch 1
    ∷ range api_key_find_coordinator 0
    ∷ range api_key_join_group 1
    ∷ range api_key_heartbeat 0
    ∷ range api_key_leave_group 0
    ∷ range api_key_sync_group 0
    ∷ range api_key_api_versions 2
    ∷ []

unfoldable pub write_api_version : Encoder → ApiVersion → Encoder
write_api_version e v =
    let e1 = write_int16 e v.key in
    let e2 = write_int16 e1 v.min_version in write_int16 e2 v.max_version

unfoldable pub encode_api_versions_response : Encoder → ℕ → Encoder
encode_api_versions_response e correlation_id =
    let e1 = write_int32 e correlation_id in
    let e2 = write_int16 e1 err_code_none in
    let e3 = write_int32 e2 (length supported_api_versions) in
    let e4 = write_each write_api_version e3 supported_api_versions in write_int32 e4 0
