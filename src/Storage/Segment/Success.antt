-- ===== src/Storage/Segment/Success.antt =====
-- The operations of a segment while every system call succeeds.
use kage.Prelude.{
  wire_all, is_neg64, ◌||◌, ◌==◌, ℕ, ◌+◌, ◌%◌, ◌≤◌, ◌<◌, ◌≡◌, refl, ◌∙◌, true, false, List, [],
  arith, Bytes, length, add64, slt64, Bool-cases, inl, inr,
}
use kage.Outcome.{ok}
use kage.Binary.{put_uint32}
use kage.Storage.Bufio.{call, new_writer, flush, write}
use kage.Storage.Bufio.Contents.{
  contents, flush_succeeds, call_succeeds, is_open-flush, flush_empties,
}
use kage.Storage.Bufio.Success.{IsReady, write_succeeds, write-IsReady}
use kage.Storage.Index.{
  Index, put_entry, load_entries, maybe_append, open_index, close_index, index_write_buffer_size,
}
use kage.Storage.Segment.{
  Segment, SegmentConfig, append_index, append_record, append, open_segment, close_segment,
  write_buffer_size,
}
use kage.Storage.Segment.Log.{IsLog, IsRecord}

-- Both writers of the segment take what is written.
pub record SegmentIsReady (s : Segment) : Type 0 where
  pub log : IsReady s.bw
  pub index : IsReady s.idx.bw

maybe_append_succeeds :
    (idx : Index) (offset position record_size : ℕ)
    → IsReady idx.bw
    → ((maybe_append [] idx offset position record_size).0 ≡ true)
      × IsReady (maybe_append [] idx offset position record_size).1.bw
unfolding maybe_append
maybe_append_succeeds idx offset position record_size r =
    elim (Bool-cases (slt64 (add64 idx.bytes_written_since_last_entry record_size) 4096)) [
      | inl b ↦ simp b (refl, r)
      | inr b ↦
          let e = put_entry (record { offset = offset; position = position }) in
          simp (b, (write_succeeds index_write_buffer_size idx.bw e r).0)
            (refl, write-IsReady index_write_buffer_size idx.bw e r)
    ]

module _ (s : Segment) (p : Bytes) (r : SegmentIsReady s) where
  append_record_succeeds :
      (record_size : ℕ)
      → ((append_record [] s p record_size).0 ≡ ok s.size)
        × SegmentIsReady (append_record [] s p record_size).1
  unfolding append_record append_index
  append_record_succeeds record_size =
      let hdr = put_uint32 (length p) in
      let (done1, rest1) = write_succeeds write_buffer_size s.bw hdr r.log in
      let ready1 = write-IsReady write_buffer_size s.bw hdr r.log in
      let bw1 = (write write_buffer_size [] s.bw hdr).1 in
      let (done2, rest2) = write_succeeds write_buffer_size bw1 p ready1 in
      let ready2 = write-IsReady write_buffer_size bw1 p ready1 in
      let (done3, ready3) =
        maybe_append_succeeds s.idx s.size (s.size % 0x1_0000_0000) record_size r.index in
      simp (done1, rest1, done2, rest2, done3) (refl, record { log = ready2; index = ready3 })

  -- A record that fits is appended.
  pub append_succeeds :
      {rs : List Bytes}
      → IsLog s rs
      → IsRecord p
      → s.size + (4 + length p) ≤ s.max_size
      → ((append [] s p).0 ≡ ok s.size) × SegmentIsReady (append [] s p).1
  unfolding append
  append_succeeds log fits room =
      let fits' : slt64 s.max_size (add64 s.size (add64 4 (length p))) ≡ false =
        ground (arith, log.small, log.bounded) in
      simp fits' (append_record_succeeds (add64 4 (length p)))

-- The segment over files that are not there yet.
abbrev pub fresh : ℕ → ℕ → Segment
fresh base max_size = record {
  bw = new_writer [];
  idx = record { bw = new_writer []; entries = []; bytes_written_since_last_entry = 0 };
  base_offset = base;
  size = 0;
  max_size = max_size;
}

pub fresh-IsLog :
    (base max_size : ℕ) → max_size < 0x4000_0000_0000_0000 → IsLog (fresh base max_size) []
unfolding new_writer wire_all
fresh-IsLog base max_size h = record {
  healthy = refl;
  logged = refl;
  sized = refl;
  bounded = omega arith;
  small = h;
  records = tt;
}

pub fresh-IsReady : (base max_size : ℕ) → SegmentIsReady (fresh base max_size)
unfolding new_writer
fresh-IsReady base max_size = record {
  log = record { healthy = refl; is_open = refl };
  index = record { healthy = refl; is_open = refl };
}

pub open_segment-fresh :
    (base : ℕ) (cfg : SegmentConfig)
    → 0 < cfg.max_size
    → cfg.max_size < 0x4000_0000_0000_0000
    → open_segment [] (record { log = []; index = [] }) base cfg
      ≡ (ok (fresh base cfg.max_size), [])
unfolding open_segment open_index load_entries call new_writer
open_segment-fresh base cfg h k =
    let positive : (is_neg64 cfg.max_size || cfg.max_size == 0) ≡ false = ground arith in
    simp positive

-- A segment that is ready can be closed, and its files then hold all that was written.
pub close_segment_succeeds :
    (s : Segment)
    → SegmentIsReady s
    → ((close_segment [] s).0 ≡ true)
      × ((close_segment [] s).2 ≡ [])
      × ((close_segment [] s).1.bw.file ≡ contents s.bw)
unfolding close_segment close_index
close_segment_succeeds s r =
    let (done1, rest1) = flush_succeeds s.bw r.log.healthy r.log.is_open in
    let (done2, rest2) = flush_succeeds s.idx.bw r.index.healthy r.index.is_open in
    simp
      (
        done1,
        rest1,
        call_succeeds (flush [] s.bw).1 (is_open-flush [] s.bw ∙ r.log.is_open),
        done2,
        rest2,
        call_succeeds (flush [] s.idx.bw).1 (is_open-flush [] s.idx.bw ∙ r.index.is_open),
      )
      (refl, refl, (flush_empties [] s.bw done1).1)
