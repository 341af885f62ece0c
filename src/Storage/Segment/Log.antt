-- ===== src/Storage/Segment/Log.antt =====
-- A segment is a log: a list of records, to which `append` adds one, and from which `read_at` reads
-- the one at the offset that its `append` returned.
use kage.Prelude.{
  ℕ, ◌+◌, ◌≤◌, ◌<◌, ◌≡◌, ◌⊎◌, inl, inr, refl, sym, ◌∙◌, ap, true, false, List, [], ◌∷◌, ◌++◌,
  append_assoc, append-nil, arith, Bytes, length, length-append, take, All, All-append, wire_all,
  wire_all-append, Bool-cases, le_or_lt, not, ◌%◌, add64, slt64, if◌then◌else◌,
}
use kage.Outcome.{Outcome, ok, err, panic}
use kage.Binary.{put_uint32}
use kage.Binary.RoundTrip.{length-put_uint32}
use kage.Storage.Error.{StorageError, segment_full, invalid_offset, invalid_size, io}
use kage.Storage.Bufio.{Os, Writer, write}
use kage.Storage.Bufio.Contents.{contents, Wrote, write-Wrote}
use kage.Storage.Index.{Index, maybe_append}
use kage.Storage.Segment.{Segment, append_index, append_record, append, write_buffer_size}

-- A record as it lies in the file: its length, then its bytes.
unfoldable pub frame : Bytes → Bytes
frame p = put_uint32 (length p) ++ p

abbrev pub IsRecord : Bytes → Type 0
IsRecord p = length p < 0x1_0000_0000

-- The segment holds the records `rs`, and its size counts their bytes. The bound on the maximum
-- keeps the int64 sums of `append` from wrapping.
pub record IsLog (s : Segment) (rs : List Bytes) : Type 0 where
  pub healthy : s.bw.failed ≡ false
  pub logged : contents s.bw ≡ wire_all frame rs
  pub sized : s.size ≡ length (contents s.bw)
  pub bounded : s.size ≤ s.max_size
  pub small : s.max_size < 0x4000_0000_0000_0000
  pub records : All IsRecord rs

pub length-frame : (p : Bytes) → length (frame p) ≡ 4 + length p
unfolding frame
length-frame p =
    omega (arith, length-append (put_uint32 (length p)) p, length-put_uint32 (length p))

-- What `append` of `p` to a log `rs` may end in. An error of a system call leaves either a writer
-- that takes nothing more, with a part of the record behind the log, or, if it was the index that
-- failed, the record in the log.
abbrev pub Appended : Segment → List Bytes → Bytes → Outcome StorageError ℕ → Segment → Type 0
Appended s rs p (ok offset) s' = (offset ≡ s.size) × IsLog s' (rs ++ p ∷ [])
Appended s rs p (err segment_full) s' = (s' ≡ s) × (s.max_size < s.size + (4 + length p))
Appended s rs p (err invalid_offset) s' = ⊥
Appended s rs p (err invalid_size) s' = ⊥
Appended s rs p (err io) s' =
    ((s'.bw.failed ≡ true)
      × (s'.size ≡ s.size)
      × (cut : Bytes) × (contents s'.bw ≡ contents s.bw ++ cut))
    ⊎ IsLog s' (rs ++ p ∷ [])
Appended s rs p panic s' = ⊥

module _ (s : Segment) (rs : List Bytes) (p : Bytes) (log : IsLog s rs) (fits : IsRecord p) where
  grown :
      (w : Writer) (idx : Index)
      → s.size + (4 + length p) ≤ s.max_size
      → w.failed ≡ false
      → contents w ≡ contents s.bw ++ frame p
      → IsLog
          (record s { bw = w; idx = idx; size = add64 s.size (add64 4 (length p)) })
          (rs ++ p ∷ [])
  grown w idx room f c = record {
    healthy = f;
    logged =
        c
        ∙ rw log.logged (
            sym (
              wire_all-append frame rs (p ∷ [])
              ∙ ap (λ t. wire_all frame rs ++ t) (unfold wire_all in append-nil (frame p))));
    sized = omega (
      arith,
      log.small,
      log.sized,
      ap length c,
      length-append (contents s.bw) (frame p),
      length-frame p,
    );
    bounded = omega (arith, log.small);
    small = log.small;
    records = All-append IsRecord rs (p ∷ []) log.records (fits, tt);
  }

  append_index-Appended :
      (os : Os) (w : Writer)
      → s.size + (4 + length p) ≤ s.max_size
      → w.failed ≡ false
      → contents w ≡ contents s.bw ++ frame p
      → let r = append_index os (record s { bw = w }) s.size (add64 4 (length p)) in
        Appended s rs p r.0 r.1
  unfolding append_index
  append_index-Appended os w room f c =
      let m = maybe_append os s.idx s.size (s.size % 0x1_0000_0000) (add64 4 (length p)) in
      let held = grown w m.1 room f c in
      elim (Bool-cases m.0) [ inl e ↦ simp e (refl, held) | inr e ↦ simp e (inr held) ]

  -- A write that failed has left a part of the record.
  cut_short :
      (w : Writer) (cut : Bytes)
      → w.failed ≡ true
      → contents w ≡ contents s.bw ++ cut
      → Appended s rs p (err io) (record s { bw = w })
  cut_short w cut f c = inl (f, refl, cut, c)

  append_payload-Appended :
      (os : Os) (w : Writer)
      → s.size + (4 + length p) ≤ s.max_size
      → contents w ≡ contents s.bw ++ put_uint32 (length p)
      → let m = write write_buffer_size os w p in
        let r =
          (if not m.0
            then (err io, record s { bw = m.1 }, m.2)
            else append_index m.2 (record s { bw = m.1 }) s.size (add64 4 (length p))) in
        Appended s rs p r.0 r.1
  append_payload-Appended os w room c =
      let m = write write_buffer_size os w p in
      let h = write-Wrote write_buffer_size os w p in
      elim (Bool-cases m.0) [
        | inl e ↦
            let (f, _, c') = (let x : Wrote w p true m.1 = rw e at h in x) in
            simp e (
              append_index-Appended m.2 m.1 room f
                (c' ∙ rw c (unfold frame in append_assoc (contents s.bw) _ p)))
        | inr e ↦
            let (f, _, j, c') = (let x : Wrote w p false m.1 = rw e at h in x) in
            simp e (
              cut_short m.1 (put_uint32 (length p) ++ take j p) f
                (c' ∙ rw c (append_assoc (contents s.bw) _ _)))
      ]

  append_record-Appended :
      (os : Os)
      → s.size + (4 + length p) ≤ s.max_size
      → let r = append_record os s p (add64 4 (length p)) in Appended s rs p r.0 r.1
  unfolding append_record
  append_record-Appended os room =
      let hdr = put_uint32 (length p) in
      let m = write write_buffer_size os s.bw hdr in
      let h = write-Wrote write_buffer_size os s.bw hdr in
      elim (Bool-cases m.0) [
        | inl e ↦
            let (f, _, c) = (let x : Wrote s.bw hdr true m.1 = rw e at h in x) in
            simp e (append_payload-Appended m.2 m.1 room c)
        | inr e ↦
            let (f, _, j, c) = (let x : Wrote s.bw hdr false m.1 = rw e at h in x) in
            simp e (cut_short m.1 (take j hdr) f c)
      ]

  -- Whatever the system calls do, `append` of a payload of fewer than 2 ^ 32 bytes to a segment
  -- that holds a log of records ends in one of three ways. If the record does not fit the
  -- maximum size, the error says so and nothing has changed. If it returns an offset, that is
  -- the size before, and the segment holds the log with the record behind it. After an error of
  -- a system call either the writer has failed, the size is as before and some bytes have been
  -- added behind the log, or the segment holds the log with the record behind it, the index
  -- being what could not be written. It neither panics nor returns another error.
  pub append-Appended : (os : Os) → let r = append os s p in Appended s rs p r.0 r.1
  unfolding append
  append-Appended os = elim (le_or_lt (s.size + (4 + length p)) s.max_size) [
    | inl room ↦
        let fits' : slt64 s.max_size (add64 s.size (add64 4 (length p))) ≡ false =
          ground (arith, log.small, log.bounded) in
        simp fits' (append_record-Appended os room)
    | inr full ↦
        let full' : slt64 s.max_size (add64 s.size (add64 4 (length p))) ≡ true =
          ground (arith, log.small, log.bounded) in
        simp full' (refl, full)
  ]
