-- ===== src/Storage/Segment/Open.antt =====
-- What `Append` leaves as it is: the file stays open, and the base offset and the limit the same.
use kage.Prelude.{
  ℕ, ◌≡◌, refl, ◌∙◌, Bool, Bool-cases, inl, inr, true, false, Bytes, length, add64, slt64,
}
use kage.Binary.{put_uint32}
use kage.Storage.Bufio.{Os, Writer, write}
use kage.Storage.Bufio.Contents.{Wrote, write-Wrote}
use kage.Storage.Segment.{
  Segment, append, append_record, append_index, record_header_size, write_buffer_size,
}

is_open-write :
    (capacity : ℕ) (os : Os) (w : Writer) (p : Bytes)
    → (write capacity os w p).1.is_open ≡ w.is_open
is_open-write capacity os w p =
    go (write capacity os w p).0 (write capacity os w p).1 (write-Wrote capacity os w p)
  where
    go : (b : Bool) (w' : Writer) → Wrote w p b w' → w'.is_open ≡ w.is_open
    go true w' h = h.1
    go false w' h = h.1

is_open-append_record :
    (os : Os) (s : Segment) (p : Bytes) (n : ℕ)
    → (append_record os s p n).1.bw.is_open ≡ s.bw.is_open
unfolding append_record append_index
is_open-append_record os s p n =
    let head = put_uint32 (length p) in
    let (header_done, bw1, os1) = write write_buffer_size os s.bw head in
    let first = is_open-write write_buffer_size os s.bw head in
    elim (Bool-cases header_done) [
      | inr failed ↦ rw failed first
      | inl written ↦ elim (Bool-cases (write write_buffer_size os1 bw1 p).0) [
        | inr failed ↦ rw (written, failed) (is_open-write write_buffer_size os1 bw1 p ∙ first)
        | inl both ↦ rw (written, both) (is_open-write write_buffer_size os1 bw1 p ∙ first)
      ]
    ]

pub is_open-append :
    (os : Os) (s : Segment) (p : Bytes) → (append os s p).1.bw.is_open ≡ s.bw.is_open
unfolding append
is_open-append os s p =
    let n = add64 record_header_size (length p) in
    elim (Bool-cases (slt64 s.max_size (add64 s.size n))) [
      | inl full ↦ rw full
      | inr room ↦ rw room (is_open-append_record os s p n)
    ]

-- The base offset and the limit.
abbrev pub SameSettings : Segment → Segment → Type 0
SameSettings s s' = (s'.base_offset ≡ s.base_offset) × (s'.max_size ≡ s.max_size)

append_record-settings :
    (os : Os) (s : Segment) (p : Bytes) (n : ℕ) → SameSettings s (append_record os s p n).1
unfolding append_record append_index
append_record-settings os s p n =
    let (header_done, bw1, os1) = write write_buffer_size os s.bw (put_uint32 (length p)) in
    elim (Bool-cases header_done) [
      | inr failed ↦ rw failed (refl, refl)
      | inl written ↦ elim (Bool-cases (write write_buffer_size os1 bw1 p).0) [
        | inr failed ↦ rw (written, failed) (refl, refl)
        | inl both ↦ rw (written, both) (refl, refl)
      ]
    ]

pub append-settings : (os : Os) (s : Segment) (p : Bytes) → SameSettings s (append os s p).1
unfolding append
append-settings os s p =
    let n = add64 record_header_size (length p) in
    elim (Bool-cases (slt64 s.max_size (add64 s.size n))) [
      | inl full ↦ rw full (refl, refl)
      | inr room ↦ rw room (append_record-settings os s p n)
    ]
