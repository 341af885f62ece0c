-- ===== src/Protocol/RecordBatch/Check.antt =====
-- What the check of a record batch accepts.
use kage.Prelude.{
  ℕ, ◌+◌, ◌-◌, ◌≤◌, ◌<◌, ◌≡◌, refl, ap, ◌↔◌, ◌++◌, arith, Bytes, length, take, drop, length-drop,
  length-append, drop-append_left, sym, ◌∙◌, get_or-drop, drop-drop, get_or, le_or_lt, inl, inr,
  not, ltb, ◌==◌, if◌then◌else◌,
}
use kage.Outcome.{Outcome, ok, err, panic, ◌>>=◌}
use kage.Binary
use kage.Binary.{put_uint64}
use kage.Binary.RoundTrip.{length-put_uint64}
use kage.Slice.{slice}
use kage.Slice.Laws.{byte_at_lt, slice_le, slice_gt, slice_from_le, uint32_le}
use kage.Crc32.{checksum}
use kage.Protocol.RecordBatch.{
  BatchError, too_short, invalid_magic_byte, length_exceeds_buffer, crc_mismatch,
  validate_record_batch,
}

-- The fields that the check reads, at their places in the header.
abbrev pub length_field : Bytes → ℕ
length_field b = Binary.uint32 (drop 8 b)

abbrev pub crc_field : Bytes → ℕ
crc_field b = Binary.uint32 (drop 17 b)

abbrev pub records_count : Bytes → ℕ
records_count b = Binary.uint32 (drop 57 b)

-- What the CRC covers: from the attributes to the end of the batch.
abbrev pub crc_body : Bytes → Bytes
crc_body b = take (length_field b + 12 - 21) (drop 21 b)

pub record IsSound (b : Bytes) : Type 0 where
  pub long_enough : 61 ≤ length b
  pub magic : get_or b 16 0 ≡ 2
  pub body_length : 9 ≤ length_field b
  pub inside : length_field b + 12 ≤ length b
  pub crc : crc_field b ≡ checksum (crc_body b)

-- The check as a ladder over the length `n` of the batch, the magic byte `m`, the length field `l`,
-- the stored and the computed CRC and the records count. A length field below 9 cuts the CRC's
-- range [21, l + 12) the wrong way round.
abbrev ladder : (n m l stored computed count : ℕ) → Outcome BatchError ℕ
ladder n m l stored computed count =
    if not (m == 2)
    then err (invalid_magic_byte m)
    else if ltb n (l + 12)
    then err (length_exceeds_buffer (l + 12))
    else if ltb l 9
    then panic
    else if not (stored == computed)
    then err (crc_mismatch stored computed)
    else ok count

-- The same with the cut `o` still to be made.
abbrev cut_ladder : (n m l stored : ℕ) → Outcome BatchError Bytes → ℕ → Outcome BatchError ℕ
cut_ladder n m l stored o count =
    if ltb n 61
    then err (too_short n)
    else if not (m == 2)
    then err (invalid_magic_byte m)
    else if ltb n (l + 12)
    then err (length_exceeds_buffer (l + 12))
    else o >>= λ body.
        if not (stored == checksum body)
        then err (crc_mismatch stored (checksum body))
        else ok count

cut_ladder-ladder :
    (n m l stored count : ℕ) (o : Outcome BatchError Bytes) (body : Bytes)
    → 61 ≤ n
    → (9 ≤ l → l + 12 ≤ n → o ≡ ok body)
    → (l < 9 → o ≡ panic)
    → cut_ladder n m l stored o count ≡ ladder n m l stored (checksum body) count
cut_ladder-ladder n m l stored count (ok b) body h p q = ground arith
cut_ladder-ladder n m l stored count (err e) body h p q = ground arith
cut_ladder-ladder n m l stored count panic body h p q = ground arith

abbrev ladder_of : Bytes → Outcome BatchError ℕ
ladder_of b =
    ladder (length b) (get_or b 16 0) (length_field b) (crc_field b) (checksum (crc_body b))
      (records_count b)

validate_record_batch-ladder : (b : Bytes) → 61 ≤ length b → validate_record_batch b ≡ ladder_of b
unfolding validate_record_batch
validate_record_batch-ladder b h =
    simp
      (
        byte_at_lt 16 b (omega arith),
        slice_from_le 8 b (omega arith),
        slice_from_le 17 b (omega arith),
        slice_from_le 57 b (omega arith),
        uint32_le (drop 8 b) (omega (arith, length-drop 8 b)),
        uint32_le (drop 17 b) (omega (arith, length-drop 17 b)),
        uint32_le (drop 57 b) (omega (arith, length-drop 57 b)),
      )
      (cut_ladder-ladder (length b) (get_or b 16 0) (length_field b) (crc_field b) (records_count b)
        (slice 21 (length_field b + 12) b) (crc_body b) h
        (λ p q. slice_le 21 (length_field b + 12) b (omega arith) q)
        (λ p. slice_gt 21 (length_field b + 12) b (omega arith)))

validate_record_batch-short :
    (b : Bytes) → length b < 61 → validate_record_batch b ≡ err (too_short (length b))
unfolding validate_record_batch
validate_record_batch-short b h = ground arith

ladder-ok :
    (n m l stored computed count k : ℕ)
    → (ladder n m l stored computed count ≡ ok k)
      ↔ ((m ≡ 2) × (9 ≤ l) × (l + 12 ≤ n) × (stored ≡ computed) × (k ≡ count))
ladder-ok n m l stored computed count k = ((λ e. ground arith), (λ s. ground arith))

ladder-panic :
    (n m l stored computed count : ℕ)
    → 61 ≤ n
    → (ladder n m l stored computed count ≡ panic) ↔ ((61 ≤ n) × (m ≡ 2) × (l < 9))
ladder-panic n m l stored computed count h = ((λ e. ground arith), (λ s. ground arith))

-- The check returns a number exactly for the sound batches (at least 61 bytes, magic byte 2, a
-- length field of at least 9 that ends inside the batch, and the stored CRC that of the bytes
-- from the attributes to that end), and the number is the records count of the header.
pub validate_record_batch_accepts :
    (b : Bytes) (n : ℕ) → (validate_record_batch b ≡ ok n) ↔ (IsSound b × (n ≡ records_count b))
validate_record_batch_accepts b n = elim (le_or_lt 61 (length b)) [
  | inl h ↦ rw (validate_record_batch-ladder b h) (
      let (there, back) =
        ladder-ok (length b) (get_or b 16 0) (length_field b) (crc_field b) (checksum (crc_body b))
          (records_count b) n in
      (
        (λ e.
            let (m, l, i, c, k) = there e in
            (record { long_enough = h; magic = m; body_length = l; inside = i; crc = c }, k)),
        (λ (s, k). back (s.magic, s.body_length, s.inside, s.crc, k)),
      ))
  | inr h ↦
      rw (validate_record_batch-short b h)
        ((λ e. absurd (ground arith)), (λ s. absurd (omega (arith, s.0.long_enough))))
]

-- The check panics exactly on a batch of at least 61 bytes with the right magic byte whose length
-- field is below 9.
pub validate_record_batch_panics :
    (b : Bytes)
    → (validate_record_batch b ≡ panic)
      ↔ ((61 ≤ length b) × (get_or b 16 0 ≡ 2) × (length_field b < 9))
validate_record_batch_panics b = elim (le_or_lt 61 (length b)) [
  | inl h ↦ rw (validate_record_batch-ladder b h) (
      ladder-panic (length b) (get_or b 16 0) (length_field b) (crc_field b) (checksum (crc_body b))
        (records_count b) h)
  | inr h ↦
      rw (validate_record_batch-short b h)
        ((λ e. absurd (ground arith)), (λ s. absurd (omega arith)))
]

-- Two batches that agree from the ninth byte on are judged alike.
validate_record_batch-cong :
    (a b : Bytes)
    → length a ≡ length b
    → drop 8 a ≡ drop 8 b
    → validate_record_batch a ≡ validate_record_batch b
validate_record_batch-cong a b same e = elim (le_or_lt 61 (length b)) [
  | inl h ↦
      rw (validate_record_batch-ladder a (omega arith), validate_record_batch-ladder b h)
        (cc (
          same,
          ap (λ (t : Bytes). get_or t 8 0) e,
          get_or-drop 8 8 16 a 0 refl,
          get_or-drop 8 8 16 b 0 refl,
          ap (drop 9) e,
          drop-drop 8 9 17 a refl,
          drop-drop 8 9 17 b refl,
          ap (drop 13) e,
          drop-drop 8 13 21 a refl,
          drop-drop 8 13 21 b refl,
          ap (drop 49) e,
          drop-drop 8 49 57 a refl,
          drop-drop 8 49 57 b refl,
        ))
  | inr h ↦ rw (validate_record_batch-short a (omega arith), validate_record_batch-short b h, same)
]

-- Writing any base offset over the first eight bytes of a batch of at least eight bytes does not
-- change what the check returns.
pub validate_record_batch-patch :
    (v : ℕ) (b : Bytes)
    → 8 ≤ length b
    → validate_record_batch (put_uint64 v ++ drop 8 b) ≡ validate_record_batch b
validate_record_batch-patch v b h =
    validate_record_batch-cong (put_uint64 v ++ drop 8 b) b
      (omega (arith, length-append (put_uint64 v) (drop 8 b), length-put_uint64 v, length-drop 8 b))
      (ap (λ (n : ℕ). drop n (put_uint64 v ++ drop 8 b)) (sym (length-put_uint64 v))
        ∙ drop-append_left (put_uint64 v) (drop 8 b))
