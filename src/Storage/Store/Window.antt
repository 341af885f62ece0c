-- ===== src/Storage/Store/Window.antt =====
-- What `Read` of the store serves.
use kage.Prelude.{
  ℕ, ◌+◌, ◌-◌, ◌≤◌, ◌<◌, ◌≡◌, refl, ◌∙◌, true, some, List, [], Bytes, arith, take, drop, min, slt64,
}
use kage.Outcome.{ok, err}
use kage.Storage.Error.{invalid_offset}
use kage.Storage.Bufio.{Os, flush}
use kage.Storage.Bufio.Contents.{
  contents, flush_empties, flush_succeeds, call_succeeds, is_open-flush,
}
use kage.Storage.Segment
use kage.Storage.Segment.{Segment, Section, pread, read_section}
use kage.Storage.Segment.Log.{IsLog}
use kage.Storage.Store.{PartitionStore, cap_bytes, served, read}

-- A segment serves a window inside what has been written, whether it has been flushed or not.
module _ (s : Segment) (rs : List Bytes) (log : IsLog s rs) (is_open : s.bw.is_open ≡ true)
    (offset n : ℕ) (positive : 0 < n) (fits : n < 0x8000_0000) (inside : offset + n ≤ s.size) where
  abbrev pub flushed : Segment
  flushed = record s { bw = (flush [] s.bw).1 }

  abbrev pub window : Section
  window = record { offset = offset; size = n }

  read_segment : Segment.read [] s offset n ≡ (ok window, flushed, (flush [] s.bw).2)
  unfolding Segment.read
  read_segment = ground (arith, log.small, log.bounded, (flush_succeeds s.bw log.healthy is_open).0)

  pub read_section-flushed :
      (read_section [] flushed window n).0 ≡ some (take n (drop offset (contents s.bw)))
  unfolding read_section pread
  read_section-flushed =
      let e = (flush_empties [] s.bw (flush_succeeds s.bw log.healthy is_open).0).1 in
      let still_open = is_open-flush [] s.bw ∙ is_open in
      simp (call_succeeds (flush [] s.bw).1 still_open, e)
        (ground (arith, log.small, log.bounded, log.sized))

module _ (ps : PartitionStore) (rs : List Bytes) (log : IsLog ps.active rs)
    (offset max_bytes : ℕ) where
  -- A read at or behind the end of an active segment that holds a log, at an offset below 2 ^
  -- 63, is out of range, whatever the maximum and the system calls, and changes nothing.
  pub read-past_end :
      (os : Os)
      → ps.active.size ≤ offset
      → offset < 0x8000_0000_0000_0000
      → read os ps offset max_bytes ≡ (err invalid_offset, ps, os)
  unfolding read
  read-past_end os h k = ground (arith, log.small, log.bounded)

  module _ (inside : offset < ps.active.size) (positive : 0 < max_bytes)
      (fits : max_bytes < 0x8000_0000) where
    -- What is served is capped by what the segment holds from the offset on.
    cap_bytes-min : cap_bytes ps offset max_bytes ≡ min max_bytes (ps.active.size - offset)
    unfolding cap_bytes
    cap_bytes-min = ground (arith, log.small, log.bounded)

    pub read-served :
        ps.active.bw.is_open ≡ true
        → let n = min max_bytes (ps.active.size - offset) in
          read [] ps offset max_bytes ≡ (
            ok (record { offset = offset; size = n }, n),
            record ps { active = record ps.active { bw = (flush [] ps.active.bw).1 } },
            (flush [] ps.active.bw).2,
          )
    unfolding read served
    read-served is_open =
        let n = min max_bytes (ps.active.size - offset) in
        let in_range : slt64 offset ps.active.size ≡ true =
          ground (arith, log.small, log.bounded) in
        simp in_range (
          rw (
            cap_bytes-min,
            read_segment ps.active rs log is_open offset n (omega arith) (omega arith)
                (omega arith),
          ))

    -- With every system call succeeding, a read inside an active segment that is open and holds
    -- a log, with a maximum that is a positive int32, returns a window of `min max_bytes (size -
    -- offset)` bytes, and reading that window delivers exactly the bytes that were appended
    -- there.
    pub read-window :
        ps.active.bw.is_open ≡ true
        → let n = min max_bytes (ps.active.size - offset) in
          let r = read [] ps offset max_bytes in
          (r.0 ≡ ok (record { offset = offset; size = n }, n))
          × ((read_section [] r.1.active (record { offset = offset; size = n }) n).0
              ≡ some (take n (drop offset (contents ps.active.bw))))
    read-window is_open =
        let n = min max_bytes (ps.active.size - offset) in
        rw (read-served is_open) (
          refl,
          read_section-flushed ps.active rs log is_open offset n (omega arith) (omega arith)
              (omega arith),
        )
