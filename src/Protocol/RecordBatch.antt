-- ===== src/Protocol/RecordBatch.antt =====
-- internal/protocol/record_batch.go: the shallow check of a record batch.
pub mod Check
use kage.Prelude.{ℕ, ◌+◌, not, Bytes, length, ltb, ◌==◌, if◌then◌else◌}
use kage.Outcome.{Outcome, ok, err, ◌>>=◌}
use kage.Slice.{byte_at, slice, slice_from, uint32}
use kage.Crc32.{checksum}

pub data BatchError : Type 0 where
  too_short : ℕ → BatchError
  invalid_magic_byte : ℕ → BatchError
  length_exceeds_buffer : ℕ → BatchError
  crc_mismatch : ℕ → ℕ → BatchError

-- The offsets of the header's fields, and the least size of a batch.
abbrev pub rb_offset_length : ℕ
rb_offset_length = 8

abbrev pub rb_offset_magic : ℕ
rb_offset_magic = 16

abbrev pub rb_offset_crc : ℕ
rb_offset_crc = 17

abbrev pub rb_offset_crc_body : ℕ
rb_offset_crc_body = 21

abbrev pub rb_offset_records_count : ℕ
rb_offset_records_count = 57

abbrev pub rb_min_bytes : ℕ
rb_min_bytes = 61

-- The length is an `int` of 64 bits that came from a uint32, so the sum does not wrap.
unfoldable pub validate_record_batch : Bytes → Outcome BatchError ℕ
validate_record_batch batch =
    if ltb (length batch) rb_min_bytes then err (too_short (length batch)) else do
      magic ← byte_at rb_offset_magic batch
      if not (magic == 2) then err (invalid_magic_byte magic) else do
        from_length ← slice_from rb_offset_length batch
        batch_length ← uint32 from_length
        let expected_total = batch_length + 12
        if ltb (length batch) expected_total then err (length_exceeds_buffer expected_total) else do
          from_crc ← slice_from rb_offset_crc batch
          stored_crc ← uint32 from_crc
          body ← slice rb_offset_crc_body expected_total batch
          let computed_crc = checksum body
          if not (stored_crc == computed_crc)
              then err (crc_mismatch stored_crc computed_crc)
              else do from_count ← slice_from rb_offset_records_count batch; uint32 from_count
