-- ===== src/Protocol/Messages/Constants.antt =====
-- The constants of internal/protocol/messages.go. A negative one is its bit pattern.
use kage.Prelude.{ℕ, [], ◌∷◌, Bytes}

-- API keys.
abbrev pub api_key_produce : ℕ
api_key_produce = 0

abbrev pub api_key_fetch : ℕ
api_key_fetch = 1

abbrev pub api_key_list_offsets : ℕ
api_key_list_offsets = 2

abbrev pub api_key_metadata : ℕ
api_key_metadata = 3

abbrev pub api_key_offset_commit : ℕ
api_key_offset_commit = 8

abbrev pub api_key_offset_fetch : ℕ
api_key_offset_fetch = 9

abbrev pub api_key_find_coordinator : ℕ
api_key_find_coordinator = 10

abbrev pub api_key_join_group : ℕ
api_key_join_group = 11

abbrev pub api_key_heartbeat : ℕ
api_key_heartbeat = 12

abbrev pub api_key_leave_group : ℕ
api_key_leave_group = 13

abbrev pub api_key_sync_group : ℕ
api_key_sync_group = 14

abbrev pub api_key_api_versions : ℕ
api_key_api_versions = 18

-- "__consumer_offsets"
abbrev pub consumer_offsets_topic : Bytes
consumer_offsets_topic =
    b'_' ∷ b'_' ∷ b'c' ∷ b'o' ∷ b'n' ∷ b's' ∷ b'u' ∷ b'm' ∷ b'e' ∷ b'r' ∷ b'_' ∷ b'o' ∷ b'f' ∷ b'f'
    ∷ b's' ∷ b'e' ∷ b't' ∷ b's' ∷ []

-- -1 as an int64.
abbrev pub offset_unknown : ℕ
offset_unknown = 0xffff_ffff_ffff_ffff

abbrev pub acks_none : ℕ
acks_none = 0

abbrev pub err_code_none : ℕ
err_code_none = 0

abbrev pub err_code_offset_out_of_range : ℕ
err_code_offset_out_of_range = 1

abbrev pub err_code_corrupt_message : ℕ
err_code_corrupt_message = 2

abbrev pub err_code_unknown_topic_or_partition : ℕ
err_code_unknown_topic_or_partition = 3

-- -2 and -1 as int64.
abbrev pub timestamp_earliest : ℕ
timestamp_earliest = 0xffff_ffff_ffff_fffe

abbrev pub timestamp_latest : ℕ
timestamp_latest = 0xffff_ffff_ffff_ffff
