-- ===== src/Storage/Segment/ReadBack.antt =====
-- `read_at` returns the record that lies at an offset of the log.
use kage.Prelude.{
  ℕ, ◌<◌, ◌≡◌, inl, inr, sym, ◌∙◌, ap, true, none, some, List, [], ◌∷◌, ◌++◌, append_assoc,
  append-nil, arith, Bytes, length, length-append, length-eq-zero, ==_iff, take-append_left,
  drop-append_left, All-middle, wire_all, wire_all-append, Bool-cases, add64, ◌==◌,
}
use kage.Outcome.{ok}
use kage.Binary.{put_uint32, uint32}
use kage.Binary.RoundTrip.{length-put_uint32, uint32-put_uint32}
use kage.Storage.Bufio.{Os, Writer, flush}
use kage.Storage.Bufio.Contents.{flush_succeeds, flush_empties, is_open-flush, call_succeeds}
use kage.Storage.Segment.{Segment, pread, read_payload, read_at, append}
use kage.Storage.Segment.Log.{IsLog, IsRecord, frame, Appended, append-Appended}

pread-append :
    (a b c : Bytes)
    → length (a ++ (b ++ c)) < 0x8000_0000_0000_0000
    → pread none (a ++ (b ++ c)) (length a) (length b) ≡ some b
unfolding pread
pread-append a b c h = ground (
  arith,
  length-append a (b ++ c),
  length-append b c,
  drop-append_left a (b ++ c),
  take-append_left b c,
)

header_value : (p : Bytes) → IsRecord p → uint32 (put_uint32 (length p)) ≡ length p
header_value p f =
    ap uint32 (sym (append-nil (put_uint32 (length p))))
    ∙ uint32-put_uint32 (length p) []
    ∙ omega arith

-- The two reads of a record at the end of `a`: the header, and what stands behind it.
module _ (file a p c : Bytes) (holds : file ≡ a ++ (put_uint32 (length p) ++ (p ++ c)))
    (small : length file < 0x4000_0000_0000_0000) where
  read_header : pread none file (length a) 4 ≡ some (put_uint32 (length p))
  read_header = rw holds (
      ap (pread none (a ++ (put_uint32 (length p) ++ (p ++ c))) (length a))
        (sym (length-put_uint32 (length p)))
      ∙ pread-append a (put_uint32 (length p)) (p ++ c) (omega (arith, ap length holds)))

  payload_offset : add64 (length a) 4 ≡ length (a ++ put_uint32 (length p))
  payload_offset = omega (
    arith,
    ap length holds,
    length-append a (put_uint32 (length p) ++ (p ++ c)),
    length-append a (put_uint32 (length p)),
    length-put_uint32 (length p),
  )

  read_body : pread none file (add64 (length a) 4) (length p) ≡ some p
  read_body =
      rw (payload_offset, holds, sym (append_assoc a (put_uint32 (length p)) (p ++ c)))
        (pread-append (a ++ put_uint32 (length p)) p c (
          omega (arith, ap length (holds ∙ sym (append_assoc a (put_uint32 (length p)) (p ++ c))))))

read_payload-append :
    (s : Segment) (a p c : Bytes)
    → s.bw.is_open ≡ true
    → s.bw.file ≡ a ++ (put_uint32 (length p) ++ (p ++ c))
    → length s.bw.file < 0x4000_0000_0000_0000
    → IsRecord p
    → (read_payload [] s (length a) (put_uint32 (length p))).0 ≡ ok p
unfolding read_payload
read_payload-append s a p c o e h f = elim (Bool-cases (length p == 0)) [
  | inl z ↦ simp (header_value p f, z) (ap ok (sym (length-eq-zero p ((==_iff _ _).0 z))))
  | inr z ↦ simp (header_value p f, z, call_succeeds s.bw o, read_body s.bw.file a p c e h)
]

module _ (s : Segment) (before after : List Bytes) (p : Bytes)
    (log : IsLog s (before ++ (p ∷ after))) (is_open : s.bw.is_open ≡ true) where
  abbrev flushed : Writer
  flushed = (flush [] s.bw).1

  flush_done : ((flush [] s.bw).0 ≡ true) × ((flush [] s.bw).2 ≡ [])
  flush_done = flush_succeeds s.bw log.healthy is_open

  flushed_file :
      flushed.file ≡ wire_all frame before ++ (put_uint32 (length p) ++ (p ++ wire_all frame after))
  flushed_file =
      (flush_empties [] s.bw flush_done.0).1
      ∙ log.logged
      ∙ wire_all-append frame before (p ∷ after)
      ∙ ap (λ t. wire_all frame before ++ t)
          (unfold wire_all frame in append_assoc (put_uint32 (length p)) p _)

  flushed_small : length flushed.file < 0x4000_0000_0000_0000
  flushed_small =
      omega
        (arith, ap length (flush_empties [] s.bw flush_done.0).1, log.sized, log.bounded, log.small)

  fits : IsRecord p
  fits = All-middle IsRecord before p after log.records

  -- With every system call succeeding, `read_at` of an open segment that holds a log returns the
  -- record `p` of that log at the offset where the records before `p` end.
  pub read_at-record : (read_at [] s (length (wire_all frame before))).0 ≡ ok p
  unfolding read_at
  read_at-record =
      simp
        (
          flush_done.0,
          flush_done.1,
          call_succeeds flushed (is_open-flush [] s.bw ∙ is_open),
          read_header flushed.file (wire_all frame before) p (wire_all frame after) flushed_file
              flushed_small,
        )
        (read_payload-append (record s { bw = flushed }) (wire_all frame before) p
          (wire_all frame after) (is_open-flush [] s.bw ∙ is_open) flushed_file flushed_small fits)

-- If `append` to a segment that holds a log, of a payload of fewer than 2 ^ 32 bytes, returned
-- an offset and the file is still open, then `read_at` at that offset returns the payload. The
-- system calls of the `append` go as they may, those of the `read_at` succeed.
pub read_at-append :
    (os : Os) (s : Segment) (rs : List Bytes) (p : Bytes) (offset : ℕ)
    → IsLog s rs
    → IsRecord p
    → (append os s p).0 ≡ ok offset
    → (append os s p).1.bw.is_open ≡ true
    → (read_at [] (append os s p).1 offset).0 ≡ ok p
read_at-append os s rs p offset log fits e is_open =
    let (place, log') =
      (let x : Appended s rs p (ok offset) (append os s p).1 =
          rw e at (append-Appended s rs p log fits os) in
        x) in
    let at : offset ≡ length (wire_all frame rs) = place ∙ log.sized ∙ ap length log.logged in
    rw at (read_at-record (append os s p).1 rs [] p log' is_open)
