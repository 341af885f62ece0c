-- ===== src/Server/OffsetRecord/RoundTrip.antt =====
-- An offset record that was encoded is decoded to what it was made from.
use kage.Prelude.{
  ℕ, ◌+◌, ◌-◌, ◌≤◌, ◌≡◌, refl, sym, ap, ◌∙◌, Bytes, [], ◌++◌, append_assoc, append-nil, arith,
  length, length-append, take, drop, take-append_left, drop-append_left, IsU16, IsU32, IsU64,
}
use kage.Outcome.{ok}
use kage.Binary
use kage.Binary.{put_uint16, put_uint32, put_uint64}
use kage.Binary.RoundTrip.{
  length-put_uint16, length-put_uint32, length-put_uint64, uint16-put_uint16, uint32-put_uint32,
  uint64-put_uint64,
}
use kage.Slice.{slice, slice_from, uint16, uint32, uint64}
use kage.Slice.Laws.{slice_le, slice_from_le, uint16_le, uint32_le, uint64_le}
use kage.Server.OffsetRecord.{
  DecodeError, encode_offset_key, encode_offset_record, split_record, decode_key, decode_value,
  decode_offset_record,
}

module _ {E : Type 0} where
  -- A slice expression cuts a part out of a concatenation.
  slice-middle :
      (lo hi : ℕ) (a b c whole : Bytes)
      → a ++ (b ++ c) ≡ whole
      → lo ≡ length a
      → hi ≡ length a + length b
      → slice {E = E} lo hi whole ≡ ok b
  slice-middle lo hi a b c whole e p q =
      let total = length-append a (b ++ c) in
      let inner = length-append b c in
      let width : hi - lo ≡ length b = omega arith in
      let cut : take (hi - lo) (drop lo (a ++ (b ++ c))) ≡ b =
        rw (width, p, drop-append_left a (b ++ c), take-append_left b c) in
      let found : slice {E = E} lo hi (a ++ (b ++ c)) ≡ ok b =
        slice_le lo hi (a ++ (b ++ c)) (omega arith) (omega arith) ∙ ap ok cut in
      rw (sym e, found)

  slice_from-back :
      (lo : ℕ) (a b whole : Bytes)
      → a ++ b ≡ whole
      → lo ≡ length a
      → slice_from {E = E} lo whole ≡ ok b
  slice_from-back lo a b whole e p =
      let total = length-append a b in
      let found : slice_from {E = E} lo (a ++ b) ≡ ok b =
        slice_from_le lo (a ++ b) (omega arith) ∙ ap ok (rw (p, drop-append_left a b)) in
      rw (sym e, found)

  uint32-front : (v : ℕ) (rest : Bytes) → IsU32 v → uint32 {E = E} (put_uint32 v ++ rest) ≡ ok v
  uint32-front v rest h =
      let total = length-append (put_uint32 v) rest in
      let first = length-put_uint32 v in
      let value : Binary.uint32 (put_uint32 v ++ rest) ≡ v =
        omega (arith, uint32-put_uint32 v rest) in
      uint32_le (put_uint32 v ++ rest) (omega arith) ∙ ap ok value

  uint16-front : (v : ℕ) (rest : Bytes) → IsU16 v → uint16 {E = E} (put_uint16 v ++ rest) ≡ ok v
  uint16-front v rest h =
      let total = length-append (put_uint16 v) rest in
      let first = length-put_uint16 v in
      let value : Binary.uint16 (put_uint16 v ++ rest) ≡ v =
        omega (arith, uint16-put_uint16 v rest) in
      uint16_le (put_uint16 v ++ rest) (omega arith) ∙ ap ok value

  uint64-front : (v : ℕ) (rest : Bytes) → IsU64 v → uint64 {E = E} (put_uint64 v ++ rest) ≡ ok v
  uint64-front v rest h =
      let total = length-append (put_uint64 v) rest in
      let first = length-put_uint64 v in
      let value : Binary.uint64 (put_uint64 v ++ rest) ≡ v =
        omega (arith, uint64-put_uint64 v rest) in
      uint64_le (put_uint64 v ++ rest) (omega arith) ∙ ap ok value

-- The steps of `split_record` when every length fits.
split_record_steps :
    (record' from_value_len key value : Bytes) (key_len value_len : ℕ)
    → 4 + key_len + 4 + value_len ≡ length record'
    → slice_from {E = DecodeError} 0 record' ≡ ok record'
    → uint32 {E = DecodeError} record' ≡ ok key_len
    → slice {E = DecodeError} 4 (4 + key_len) record' ≡ ok key
    → slice_from {E = DecodeError} (4 + key_len) record' ≡ ok from_value_len
    → uint32 {E = DecodeError} from_value_len ≡ ok value_len
    → slice {E = DecodeError} (4 + key_len + 4) (4 + key_len + 4 + value_len) record' ≡ ok value
    → split_record record' ≡ ok (key, value)
unfolding split_record
split_record_steps record' from_value_len key value key_len value_len h a b c d e f = ground arith

split_record-encode_offset_record :
    (key value : Bytes)
    → IsU32 (length key)
    → IsU32 (length value)
    → split_record (encode_offset_record key value) ≡ ok (key, value)
unfolding encode_offset_record
split_record-encode_offset_record key value hk hv =
    let k = put_uint32 (length key) in
    let v = put_uint32 (length value) in
    let whole = k ++ (key ++ (v ++ value)) in
    let size_k = length-put_uint32 (length key) in
    let size_v = length-put_uint32 (length value) in
    let size_kk = length-append k key in
    let size_kkv = length-append (k ++ key) v in
    let size : 4 + length key + 4 + length value ≡ length whole = omega (
      arith,
      length-append v value,
      length-append key (v ++ value),
      length-append k (key ++ (v ++ value)),
    ) in
    split_record_steps whole (v ++ value) key value (length key) (length value) size
      (slice_from-back 0 [] whole whole refl refl)
      (uint32-front (length key) (key ++ (v ++ value)) hk)
      (slice-middle 4 (4 + length key) k key (v ++ value) whole refl (omega arith) (omega arith))
      (slice_from-back (4 + length key) (k ++ key) (v ++ value) whole (simp append_assoc)
        (omega arith))
      (uint32-front (length value) value hv)
      (slice-middle (4 + length key + 4) (4 + length key + 4 + length value) ((k ++ key) ++ v) value
        [] whole (simp (append_assoc, append-nil)) (omega arith) (omega arith))

length-encode_offset_key :
    (group_id topic : Bytes) (partition : ℕ)
    → length (encode_offset_key group_id topic partition)
      ≡ 2 + length group_id + 2 + length topic + 4
unfolding encode_offset_key
length-encode_offset_key group_id topic partition =
    let g = put_uint16 (length group_id) in
    let t = put_uint16 (length topic) in
    let p = put_uint32 partition in
    let size_g = length-put_uint16 (length group_id) in
    let size_t = length-put_uint16 (length topic) in
    let size_p = length-put_uint32 partition in
    omega (
      arith,
      length-append topic p,
      length-append t (topic ++ p),
      length-append group_id (t ++ (topic ++ p)),
      length-append g (group_id ++ (t ++ (topic ++ p))),
    )

decode_key_steps :
    (key from_topic_len from_partition group_id topic : Bytes) (group_len topic_len partition : ℕ)
    → 2 + group_len + 2 + topic_len + 4 ≡ length key
    → slice_from {E = DecodeError} 0 key ≡ ok key
    → uint16 {E = DecodeError} key ≡ ok group_len
    → slice {E = DecodeError} 2 (2 + group_len) key ≡ ok group_id
    → slice_from {E = DecodeError} (2 + group_len) key ≡ ok from_topic_len
    → uint16 {E = DecodeError} from_topic_len ≡ ok topic_len
    → slice {E = DecodeError} (2 + group_len + 2) (2 + group_len + 2 + topic_len) key ≡ ok topic
    → slice_from {E = DecodeError} (2 + group_len + 2 + topic_len) key ≡ ok from_partition
    → uint32 {E = DecodeError} from_partition ≡ ok partition
    → decode_key key ≡ ok (record { group_id = group_id; topic = topic; partition = partition })
unfolding decode_key
decode_key_steps key f1 f2 group_id topic group_len topic_len partition h a b c d e f g i =
    ground arith

decode_key-encode_offset_key :
    (group_id topic : Bytes) (partition : ℕ)
    → IsU16 (length group_id)
    → IsU16 (length topic)
    → IsU32 partition
    → decode_key (encode_offset_key group_id topic partition)
      ≡ ok (record { group_id = group_id; topic = topic; partition = partition })
unfolding encode_offset_key
decode_key-encode_offset_key group_id topic partition hg ht hp =
    let g = put_uint16 (length group_id) in
    let t = put_uint16 (length topic) in
    let p = put_uint32 partition in
    let whole = g ++ (group_id ++ (t ++ (topic ++ p))) in
    let size_g = length-put_uint16 (length group_id) in
    let size_t = length-put_uint16 (length topic) in
    let size_p = length-put_uint32 partition in
    let size_gg = length-append g group_id in
    let size_ggt = length-append (g ++ group_id) t in
    let size_ggtt = length-append ((g ++ group_id) ++ t) topic in
    let size : 2 + length group_id + 2 + length topic + 4 ≡ length whole = omega (
      arith,
      length-append topic p,
      length-append t (topic ++ p),
      length-append group_id (t ++ (topic ++ p)),
      length-append g (group_id ++ (t ++ (topic ++ p))),
    ) in
    decode_key_steps whole (t ++ (topic ++ p)) (p ++ []) group_id topic (length group_id)
      (length topic) partition size (slice_from-back 0 [] whole whole refl refl)
      (uint16-front (length group_id) (group_id ++ (t ++ (topic ++ p))) hg)
      (slice-middle 2 (2 + length group_id) g group_id (t ++ (topic ++ p)) whole refl (omega arith)
        (omega arith))
      (slice_from-back (2 + length group_id) (g ++ group_id) (t ++ (topic ++ p)) whole
        (simp append_assoc) (omega arith))
      (uint16-front (length topic) (topic ++ p) ht)
      (slice-middle (2 + length group_id + 2) (2 + length group_id + 2 + length topic)
        ((g ++ group_id) ++ t) topic p whole (simp append_assoc) (omega arith) (omega arith))
      (slice_from-back (2 + length group_id + 2 + length topic) (((g ++ group_id) ++ t) ++ topic)
        (p ++ []) whole (simp (append_assoc, append-nil)) (omega arith))
      (uint32-front partition [] hp)

decode_value_steps :
    (value first : Bytes) (offset : ℕ)
    → 8 ≤ length value
    → slice {E = DecodeError} 0 8 value ≡ ok first
    → uint64 {E = DecodeError} first ≡ ok offset
    → decode_value value ≡ ok offset
unfolding decode_value
decode_value_steps value first offset h a b = ground arith

decode_value-put_uint64 : (offset : ℕ) → IsU64 offset → decode_value (put_uint64 offset) ≡ ok offset
decode_value-put_uint64 offset h =
    let v = put_uint64 offset in
    let size = length-put_uint64 offset in
    decode_value_steps v (v ++ []) offset (omega arith)
      (slice-middle 0 8 [] (v ++ []) [] v (simp append-nil) refl
        (omega (arith, length-append v [])))
      (uint64-front offset [] h)

-- A commit record that was encoded from a group of fewer than 65536 bytes, a topic of fewer than
-- 65536 bytes, a partition of 32 bits and an offset of 64 bits is decoded to that group, topic,
-- partition and offset.
pub decode_offset_record-encode_offset_record :
    (group_id topic : Bytes) (partition offset : ℕ)
    → IsU16 (length group_id)
    → IsU16 (length topic)
    → IsU32 partition
    → IsU64 offset
    → decode_offset_record
        (encode_offset_record (encode_offset_key group_id topic partition) (put_uint64 offset))
      ≡ ok (record { group_id = group_id; topic = topic; partition = partition }, offset)
unfolding decode_offset_record
decode_offset_record-encode_offset_record group_id topic partition offset hg ht hp ho =
    let size = length-encode_offset_key group_id topic partition in
    let split =
      split_record-encode_offset_record (encode_offset_key group_id topic partition)
        (put_uint64 offset) (omega arith) (omega (arith, length-put_uint64 offset)) in
    rw (
      split,
      decode_key-encode_offset_key group_id topic partition hg ht hp,
      decode_value-put_uint64 offset ho,
    )
