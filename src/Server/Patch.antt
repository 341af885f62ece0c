-- ===== src/Server/Patch.antt =====
-- The loop of `handleFetch` in internal/server/handler.go that writes a new base offset into each
-- record batch of a payload.
pub mod Batches
pub mod Size
use kage.Prelude.{
  ℕ, zero, suc, ◌+◌, Bool, Bytes, length, take, drop, ◌++◌, leb, ltb, add64, sub64, sext32,
  if◌then◌else◌,
}
use kage.Binary.{put_uint64, uint32}

abbrev pub rec_hdr : ℕ
rec_hdr = 4

abbrev pub rb_length : ℕ
rb_length = 8

abbrev pub rb_last_offset_delta : ℕ
rb_last_offset_delta = 23

abbrev pub rb_min_patch_bytes : ℕ
rb_min_patch_bytes = 27

-- binary.BigEndian.PutUint64(b[pos:pos+8], v) inside the buffer.
unfoldable pub put_uint64_at : ℕ → ℕ → Bytes → Bytes
put_uint64_at pos v b = take pos b ++ (put_uint64 v ++ drop (8 + pos) b)

-- `uint64(lastOffsetDelta)` of an int32 spreads its sign.
unfoldable pub target_base : ℕ → ℕ → ℕ → ℕ
target_base current_pos total_batch_bytes last_offset_delta =
    let next_physical = add64 (add64 current_pos rec_hdr) total_batch_bytes in
    sub64 (sub64 next_physical (sext32 last_offset_delta)) 1

-- The tests of the loop keep every read and write inside the payload. Each round moves on by at
-- least 12 bytes, so as many rounds as there are bytes are enough.
unfoldable pub patch_loop : ℕ → ℕ → ℕ → Bytes → Bytes
patch_loop zero current_pos pos payload = payload
patch_loop (suc fuel) current_pos pos payload =
    let batch_len = uint32 (drop (pos + rb_length) payload) in
    let total_batch_bytes = 12 + batch_len in
    let last_offset_delta = uint32 (drop (pos + rb_last_offset_delta) payload) in
    let base = target_base current_pos total_batch_bytes last_offset_delta in
    let rest =
      patch_loop fuel (add64 current_pos total_batch_bytes) (pos + total_batch_bytes)
        (put_uint64_at pos base payload) in
    if leb (pos + rb_min_patch_bytes) (length payload)
    then (if ltb (length payload) (pos + total_batch_bytes) then payload else rest)
    else payload

unfoldable pub patch_batches : ℕ → Bytes → Bytes
patch_batches fetch_offset payload = patch_loop (length payload) fetch_offset 0 payload
