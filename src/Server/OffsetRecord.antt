-- ===== src/Server/OffsetRecord.antt =====
-- The records of the __consumer_offsets topic: `encodeOffsetKey`, `encodeOffsetRecord` and
-- `decodeOffsetRecord` of internal/server/handler.go.
pub mod RoundTrip
pub mod Safety
use kage.Prelude.{ℕ, ◌+◌, ◌++◌, Bytes, length, ltb, if◌then◌else◌}
use kage.Outcome.{Outcome, ok, err, ◌>>=◌}
use kage.Binary.{put_uint16, put_uint32}
use kage.Slice.{slice, slice_from, uint16, uint32, uint64}

pub record OffsetCacheKey : Type 0 where
  pub group_id : Bytes
  pub topic : Bytes
  pub partition : ℕ

-- The errors, one for each length that does not fit.
pub data DecodeError : Type 0 where
  record_too_short key_exceeds_record no_value_length value_exceeds_record : DecodeError
  no_group_length group_exceeds_key no_topic_length topic_exceeds_key no_partition : DecodeError
  value_too_short : DecodeError

-- Each part is copied behind the one before it, and together they fill the buffer.
unfoldable pub encode_offset_key : Bytes → Bytes → ℕ → Bytes
encode_offset_key group_id topic partition =
    put_uint16 (length group_id)
    ++ (group_id ++ (put_uint16 (length topic) ++ (topic ++ put_uint32 partition)))

unfoldable pub encode_offset_record : Bytes → Bytes → Bytes
encode_offset_record key value =
    put_uint32 (length key) ++ (key ++ (put_uint32 (length value) ++ value))

-- The first part of `decodeOffsetRecord`: the key and the value. The positions are `int`s of 64
-- bits and the lengths uint32, so no sum wraps.
unfoldable pub split_record : Bytes → Outcome DecodeError (Bytes × Bytes)
split_record record' = if ltb (length record') 4 then err record_too_short else do
  from_key_len ← slice_from 0 record'
  key_len ← uint32 from_key_len
  if ltb (length record') (4 + key_len) then err key_exceeds_record else do
    key ← slice 4 (4 + key_len) record'
    let pos = 4 + key_len
    if ltb (length record') (pos + 4) then err no_value_length else do
      from_value_len ← slice_from pos record'
      value_len ← uint32 from_value_len
      if ltb (length record') (pos + 4 + value_len)
          then err value_exceeds_record
          else do value ← slice (pos + 4) (pos + 4 + value_len) record'; ok (key, value)

-- The second part: the key.
unfoldable pub decode_key : Bytes → Outcome DecodeError OffsetCacheKey
decode_key key = if ltb (length key) 2 then err no_group_length else do
  from_group_len ← slice_from 0 key
  group_len ← uint16 from_group_len
  if ltb (length key) (2 + group_len) then err group_exceeds_key else do
    group_id ← slice 2 (2 + group_len) key
    let kpos = 2 + group_len
    if ltb (length key) (kpos + 2) then err no_topic_length else do
      from_topic_len ← slice_from kpos key
      topic_len ← uint16 from_topic_len
      if ltb (length key) (kpos + 2 + topic_len) then err topic_exceeds_key else do
        topic ← slice (kpos + 2) (kpos + 2 + topic_len) key
        let kpos' = kpos + 2 + topic_len
        if ltb (length key) (kpos' + 4) then err no_partition else do
          from_partition ← slice_from kpos' key
          partition ← uint32 from_partition
          ok (record { group_id = group_id; topic = topic; partition = partition })

-- The last part: the value.
unfoldable pub decode_value : Bytes → Outcome DecodeError ℕ
decode_value value =
    if ltb (length value) 8 then err value_too_short else do first ← slice 0 8 value; uint64 first

unfoldable pub decode_offset_record : Bytes → Outcome DecodeError (OffsetCacheKey × ℕ)
decode_offset_record record' = do
  (key, value) ← split_record record'
  cache_key ← decode_key key
  offset ← decode_value value
  ok (cache_key, offset)
