-- ===== src/Storage/Store/Rollover.antt =====
-- What `Append` of the store does when the active segment is full.
use kage.Prelude.{
  ◌+◌, ◌≤◌, ◌<◌, ◌≡◌, refl, ◌∙◌, false, none, List, [], ◌∷◌, arith, Bytes, length, add64, wire_all,
  ◌==◌, ==_iff,
}
use kage.Outcome.{ok, err}
use kage.Storage.Error.{segment_full}
use kage.Storage.Bufio.{Os}
use kage.Storage.Segment
use kage.Storage.Segment.{Segment, Files, close_segment}
use kage.Storage.Segment.Log.{IsLog, IsRecord, frame, Appended, append-Appended}
use kage.Storage.Segment.Open.{append-settings}
use kage.Storage.Segment.Success.{
  SegmentIsReady, append_succeeds, fresh, fresh-IsLog, fresh-IsReady, open_segment-fresh,
  close_segment_succeeds,
}
use kage.Storage.Store.{
  PartitionStore, put_files, closed_files, open_next, rollover, append_active, append_next,
  append_retry, append_rolled, append, install,
}

-- The active segment is the log `rs` and takes what is written, the configured size is the one in
-- force, and the directory holds no files yet for the next base offset.
pub record StoreIsReady (ps : PartitionStore) (rs : List Bytes) : Type 0 where
  pub log : IsLog ps.active rs
  pub ready : SegmentIsReady ps.active
  pub configured : ps.active.max_size ≡ ps.cfg.max_size
  pub positive : 0 < ps.cfg.max_size
  pub next_is_new :
      ((add64 ps.next_base ps.active.size == ps.active.base_offset) ≡ false)
      × (ps.dir (add64 ps.next_base ps.active.size) ≡ record { log = []; index = [] })

-- Whatever the system calls do, a record that does not fit is refused by the active segment, which
-- stays as it is.
append_active_full :
    (os : Os) (ps : PartitionStore) {rs : List Bytes} (p : Bytes)
    → IsLog ps.active rs
    → IsRecord p
    → ps.active.max_size < ps.active.size + (4 + length p)
    → append_active os ps p ≡ (err segment_full, ps, os)
unfolding append_active Segment.append
append_active_full os ps p log fits full = ground (arith, log.small, log.bounded)

open_next-fresh :
    (ps : PartitionStore)
    → ps.dir ps.next_base ≡ record { log = []; index = [] }
    → 0 < ps.cfg.max_size
    → ps.cfg.max_size < 0x4000_0000_0000_0000
    → open_next [] ps ≡ (none, record ps { active = fresh ps.next_base ps.cfg.max_size }, [])
unfolding open_next install
open_next-fresh ps new h small = rw (new, open_segment-fresh ps.next_base ps.cfg h small)

module _ (ps : PartitionStore) (rs : List Bytes) (h : StoreIsReady ps rs) where
  -- The store behind a rollover.
  abbrev pub rolled : PartitionStore
  rolled = record {
    dir_name = ps.dir_name;
    dir = put_files ps.dir ps.active.base_offset (closed_files (close_segment [] ps.active).1);
    cfg = ps.cfg;
    active = fresh (add64 ps.next_base ps.active.size) ps.cfg.max_size;
    next_base = add64 ps.next_base ps.active.size;
  }

  small : ps.cfg.max_size < 0x4000_0000_0000_0000
  small = omega (arith, h.log.small, h.configured)

  rollover-rolled : rollover [] ps ≡ (none, rolled, [])
  unfolding rollover
  rollover-rolled =
      let (done, rest, _) = close_segment_succeeds ps.active h.ready in
      simp (done, rest)
        (open_next-fresh (record rolled { active = (close_segment [] ps.active).1 })
          (unfold put_files in simp h.next_is_new.0 h.next_is_new.1) h.positive small)

  pub append-rolled :
      (p : Bytes)
      → IsRecord p
      → ps.active.max_size < ps.active.size + (4 + length p)
      → append [] ps p ≡ append_active [] rolled p
  unfolding append append_next append_retry append_rolled
  append-rolled p fits full = rw (append_active_full [] ps p h.log fits full) (rw rollover-rolled)

  -- With every system call succeeding, and for a store whose active segment holds a log and
  -- takes what is written, whose size limit is the configured one and which has no files at the
  -- next base offset: a record that does not fit the active segment but fits an empty one goes
  -- to a new segment. The base offset of that segment is the store's next base offset moved on by
  -- the size of the old segment, in an int64, and the store keeps it as its next base offset. The
  -- old log is left whole in its file, and the offset that is returned counts from the start of the
  -- new segment: it is 0.
  pub append_rolls :
      (p : Bytes)
      → IsRecord p
      → ps.active.max_size < ps.active.size + (4 + length p)
      → 4 + length p ≤ ps.cfg.max_size
      → let r = append [] ps p in
        (r.0 ≡ ok 0)
        × IsLog r.1.active (p ∷ [])
        × ((r.1.dir ps.active.base_offset).log ≡ wire_all frame rs)
        × (r.1.next_base ≡ add64 ps.next_base ps.active.size)
        × (r.1.active.base_offset ≡ add64 ps.next_base ps.active.size)
  unfolding append_active put_files closed_files
  append_rolls p fits full room =
      let (offset, _) =
        append_succeeds rolled.active p (fresh-IsReady _ _) (fresh-IsLog _ _ small) fits
          (omega arith) in
      let result = append-Appended rolled.active [] p (fresh-IsLog _ _ small) fits [] in
      let (_, log) =
        (let x : Appended rolled.active [] p (ok 0) (Segment.append [] rolled.active p).1 =
            rw offset at result in
          x) in
      let (_, _, file) = close_segment_succeeds ps.active h.ready in
      rw (append-rolled p fits full) (
        offset,
        log,
        simp ((==_iff ps.active.base_offset _).1 refl) (file ∙ h.log.logged),
        refl,
        (append-settings [] rolled.active p).0,
      )

  -- With every system call succeeding, and for a store as in `append_rolls`: a record that does
  -- not even fit an empty segment is refused, and yet the active segment has been closed with its
  -- log whole in its file, and an empty segment has taken its place.
  pub append_too_large :
      (p : Bytes)
      → IsRecord p
      → ps.cfg.max_size < 4 + length p
      → let r = append [] ps p in
        (r.0 ≡ err segment_full)
        × (r.1.active ≡ fresh (add64 ps.next_base ps.active.size) ps.cfg.max_size)
        × ((r.1.dir ps.active.base_offset).log ≡ wire_all frame rs)
  unfolding put_files closed_files
  append_too_large p fits large =
      let (_, _, file) = close_segment_succeeds ps.active h.ready in
      rw
        (
          append-rolled p fits (omega (arith, h.configured)),
          append_active_full [] rolled p (fresh-IsLog _ _ small) fits (omega arith),
        )
        (refl, refl, simp ((==_iff ps.active.base_offset _).1 refl) (file ∙ h.log.logged))
