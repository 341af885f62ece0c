-- ===== src/Storage/Segment.antt =====
-- internal/storage/segment.go: the append-only log file of length-prefixed records, with its
-- index. The mutex makes each method one step, so a method is a function from the segment to its
-- result and the new segment.
pub mod Log
pub mod ReadBack
pub mod Open
pub mod Success
use kage.Prelude.{
  ℕ, ◌+◌, ◌%◌, ◌<◌, Bool, true, false, ◌||◌, not, Option, none, some, List, [], ◌∷◌, ◌++◌, Bytes,
  length, take, drop, ltb, add64, slt64, is_neg64, is_neg32, ◌==◌, if◌then◌else◌,
}
use kage.Outcome.{Outcome, ok, err}
use kage.Binary.{put_uint32, uint32}
use kage.Storage.Error.{StorageError, segment_full, invalid_offset, invalid_size, io}
use kage.Storage.Bufio.{Os, Writer, new_writer, write, flush, call}
use kage.Storage.Index.{Index, open_index, maybe_append, flush_index, close_index}

abbrev pub default_max_segment_size : ℕ
default_max_segment_size = 0x4000_0000

abbrev pub record_header_size : ℕ
record_header_size = 4

abbrev pub write_buffer_size : ℕ
write_buffer_size = 0x4_0000

-- `file` and `bw` of the source are the writer.
pub record Segment : Type 0 where
  pub bw : Writer
  pub idx : Index
  pub base_offset : ℕ
  pub size : ℕ
  pub max_size : ℕ

-- The retention is a number of nanoseconds.
pub record SegmentConfig : Type 0 where
  pub max_size : ℕ
  pub retention : ℕ

-- The content of the two files of a segment.
pub record Files : Type 0 where
  pub log : Bytes
  pub index : Bytes

-- `OpenSegment` over what the directory holds under the names of the base offset.
unfoldable pub open_segment : Os → Files → ℕ → SegmentConfig → Outcome StorageError Segment × Os
open_segment os files base_offset cfg =
    let max_size =
      if is_neg64 cfg.max_size || cfg.max_size == 0
      then default_max_segment_size
      else cfg.max_size in
    let w = new_writer files.log in
    let (opened, os1) = call os w in
    let (stated, os2) = call os1 w in
    let (idx, os3) = open_index os2 files.index in
    elim opened [
      | some _ ↦ (err io, os1)
      | none ↦ elim stated [
        | some _ ↦ (err io, os2)
        | none ↦ elim idx [
          | none ↦ (err io, os3)
          | some idx' ↦ (
            ok (record {
              bw = w;
              idx = idx';
              base_offset = base_offset;
              size = length files.log;
              max_size = max_size;
            }),
            os3,
          )
        ]
      ]
    ]

-- The last part of `Append`, once the record is written: the size and the index.
unfoldable pub append_index : Os → Segment → ℕ → ℕ → Outcome StorageError ℕ × Segment × Os
append_index os s offset record_size =
    let size = add64 s.size record_size in
    let (done, idx', os') = maybe_append os s.idx offset (offset % 0x1_0000_0000) record_size in
    ((if done then ok offset else err io), record s { idx = idx'; size = size }, os')

-- The middle part of `Append`: the header and the payload.
unfoldable pub append_record : Os → Segment → Bytes → ℕ → Outcome StorageError ℕ × Segment × Os
append_record os s payload record_size =
    let (header_done, bw1, os1) = write write_buffer_size os s.bw (put_uint32 (length payload)) in
    if not header_done
    then (err io, record s { bw = bw1 }, os1)
    else let (payload_done, bw2, os2) = write write_buffer_size os1 bw1 payload in
      if not payload_done
      then (err io, record s { bw = bw2 }, os2)
      else append_index os2 (record s { bw = bw2 }) s.size record_size

unfoldable pub append : Os → Segment → Bytes → Outcome StorageError ℕ × Segment × Os
append os s payload =
    let record_size = add64 record_header_size (length payload) in
    if slt64 s.max_size (add64 s.size record_size)
    then (err segment_full, s, os)
    else append_record os s payload record_size

unfoldable pub flush_segment : Os → Segment → Bool × Segment × Os
flush_segment os s =
    let (done, bw', os1) = flush os s.bw in
    let (synced, os2) = call os1 bw' in
    let (idx_done, idx', os3) = flush_index os2 s.idx in
    if not done then (false, record s { bw = bw' }, os1) else elim synced [
      | some _ ↦ (false, record s { bw = bw' }, os2)
      | none ↦ (idx_done, record s { bw = bw'; idx = idx' }, os3)
    ]

-- `file.ReadAt` of `n` bytes at an int64: all of them, or an error.
unfoldable pub pread : Option ℕ → Bytes → ℕ → ℕ → Option Bytes
pread (some _) file at n = none
pread none file at n =
    if is_neg64 at || ltb (length file) (at + n) then none else some (take n (drop at file))

-- The record behind a header that has been read.
unfoldable pub read_payload : Os → Segment → ℕ → Bytes → Outcome StorageError Bytes × Os
read_payload os s offset hdr =
    let n = uint32 hdr in
    let (o, os') = call os s.bw in
    if n == 0 then (ok [], os) else elim (pread o s.bw.file (add64 offset record_header_size) n) [
      | none ↦ (err io, os')
      | some payload ↦ (ok payload, os')
    ]

unfoldable pub read_at : Os → Segment → ℕ → Outcome StorageError Bytes × Segment × Os
read_at os s offset =
    let (done, bw', os1) = flush os s.bw in
    let s' = record s { bw = bw' } in
    let (o, os2) = call os1 bw' in
    if not done then (err io, s', os1) else elim (pread o bw'.file offset record_header_size) [
      | none ↦ (err io, s', os2)
      | some hdr ↦ let (r, os3) = read_payload os2 s' offset hdr in (r, s', os3)
    ]

-- The window of an io.SectionReader over the file.
pub record Section : Type 0 where
  pub offset : ℕ
  pub size : ℕ

-- `Read`: `size` is an int32, and above 0 once the first test has passed.
unfoldable pub read : Os → Segment → ℕ → ℕ → Outcome StorageError Section × Segment × Os
read os s offset size =
    let (done, bw', os') = flush os s.bw in
    if is_neg32 size || size == 0
    then (err invalid_size, s, os)
    else if not (slt64 offset s.size)
    then (err invalid_offset, s, os)
    else if slt64 s.size (add64 offset size)
    then (err invalid_size, s, os)
    else if not done
    then (err io, record s { bw = bw' }, os')
    else (ok (record { offset = offset; size = size }), record s { bw = bw' }, os')

-- io.ReadFull of `n` bytes of a section, which the file must hold in the window: one call of
-- ReadAt, since a section that is handed out is not empty. It fails when the file is closed.
unfoldable pub read_section : Os → Segment → Section → ℕ → Option Bytes × Os
read_section os s r n =
    let (o, os') = call os s.bw in
    ((if ltb r.size n then none else pread o s.bw.file r.offset n), os')

-- `Close`: the buffer, the log file, the index.
unfoldable pub close_segment : Os → Segment → Bool × Segment × Os
close_segment os s =
    let (done, bw', os1) = flush os s.bw in
    let (shut, os2) = call os1 bw' in
    let closed = record s { bw = record bw' { is_open = false } } in
    let (idx_done, idx', os3) = close_index os2 s.idx in
    if not done then (false, record s { bw = bw' }, os1) else elim shut [
      | some _ ↦ (false, closed, os2)
      | none ↦ (idx_done, record closed { idx = idx' }, os3)
    ]
