-- ===== src/Storage/Store/Restart.antt =====
-- A partition store that is closed and opened again, with every system call succeeding.
use kage.Prelude.{
  ℕ, ◌+◌, ◌≤◌, ◌<◌, ◌≡◌, refl, sym, ap, ◌∙◌, true, false, List, [], append-nil, arith, Bytes,
  length, All, wire_all, is_neg64, ◌||◌, ◌==◌, ==_iff,
}
use kage.Outcome.{Outcome, ok}
use kage.Storage.Error.{StorageError}
use kage.Storage.Bufio.{call, new_writer}
use kage.Storage.Index.{load_entries, open_index}
use kage.Storage.Segment.{Segment, SegmentConfig, Files, open_segment}
use kage.Storage.Segment.Log.{IsLog, IsRecord, frame}
use kage.Storage.Segment.Open.{append-settings}
use kage.Storage.Segment.Success.{SegmentIsReady, close_segment_succeeds}
use kage.Storage.Store.{
  PartitionStore, Dir, put_files, closed_files, open_partition_store, close_store, append_active,
  append,
}
use kage.Storage.Store.Rollover.{StoreIsReady, append_rolls, rolled, append-rolled}

-- The segment over files that are there.
abbrev reopened : Files → ℕ → ℕ → Segment
reopened files base max_size = record {
  bw = new_writer files.log;
  idx = record {
    bw = new_writer files.index;
    entries = load_entries files.index;
    bytes_written_since_last_entry = 0;
  };
  base_offset = base;
  size = length files.log;
  max_size = max_size;
}

open_segment-reopened :
    (files : Files) (base : ℕ) (cfg : SegmentConfig)
    → 0 < cfg.max_size
    → cfg.max_size < 0x4000_0000_0000_0000
    → open_segment [] files base cfg ≡ (ok (reopened files base cfg.max_size), [])
unfolding open_segment open_index call new_writer
open_segment-reopened files base cfg h k =
    let positive : (is_neg64 cfg.max_size || cfg.max_size == 0) ≡ false = ground arith in
    simp positive

-- A store that has been opened over the log `rs`, which it holds and can add to.
pub record IsReopened (o : Outcome StorageError PartitionStore) (cfg : SegmentConfig)
    (rs : List Bytes) : Type 0 where
  pub store : PartitionStore
  pub opened : o ≡ ok store
  pub log : IsLog store.active rs
  pub ready : SegmentIsReady store.active
  pub limit : store.active.max_size ≡ cfg.max_size
  pub at_zero : store.active.base_offset ≡ 0

-- `OpenPartitionStore` opens the segment of base offset 0, whatever others there are.
pub open_partition_store-IsReopened :
    (name : Bytes) (dir : Dir) (cfg : SegmentConfig) (rs : List Bytes)
    → (dir 0).log ≡ wire_all frame rs
    → All IsRecord rs
    → length (wire_all frame rs) ≤ cfg.max_size
    → 0 < cfg.max_size
    → cfg.max_size < 0x4000_0000_0000_0000
    → IsReopened (open_partition_store [] name dir cfg).0 cfg rs
unfolding open_partition_store new_writer
open_partition_store-IsReopened name dir cfg rs here fits room positive small = record {
  store = record {
    dir_name = name;
    dir = dir;
    cfg = cfg;
    active = reopened (dir 0) 0 cfg.max_size;
    next_base = 0;
  };
  opened = simp (open_partition_store, open_segment-reopened (dir 0) 0 cfg positive small);
  log = record {
    healthy = refl;
    logged = append-nil (dir 0).log ∙ here;
    sized = ap length (sym (append-nil (dir 0).log));
    bounded = rw here room;
    small = small;
    records = fits;
  };
  ready = record {
    log = record { healthy = refl; is_open = refl };
    index = record { healthy = refl; is_open = refl };
  };
  limit = refl;
  at_zero = refl;
}

-- The directory that a store leaves when it is closed, the system calls succeeding.
unfoldable pub closed_dir : PartitionStore → Dir
closed_dir ps = put_files ps.dir ps.active.base_offset (closed_files (close_store [] ps).1.active)

-- With every system call succeeding: a store that takes what is written, whose limit is the
-- configured one and whose active segment is still the first, of base offset 0, and holds a log,
-- closes without an error, and a store that is then opened over its directory holds the same log
-- and takes what is written.
pub open_partition_store-close_store :
    (ps : PartitionStore) (rs : List Bytes)
    → IsLog ps.active rs
    → SegmentIsReady ps.active
    → ps.active.max_size ≡ ps.cfg.max_size
    → 0 < ps.cfg.max_size
    → ps.active.base_offset ≡ 0
    → ((close_store [] ps).0 ≡ true)
      × IsReopened (open_partition_store [] ps.dir_name (closed_dir ps) ps.cfg).0 ps.cfg rs
unfolding close_store closed_dir put_files closed_files
open_partition_store-close_store ps rs log ready limit positive first =
    let (done, _, file) = close_segment_succeeds ps.active ready in
    let here : (closed_dir ps 0).log ≡ wire_all frame rs =
      simp ((==_iff 0 ps.active.base_offset).1 (sym first)) (file ∙ log.logged) in
    (
      done,
      open_partition_store-IsReopened ps.dir_name (closed_dir ps) ps.cfg rs here log.records
          (omega (arith, log.bounded, log.sized, limit, ap length log.logged)) positive
          (omega (arith, log.small, limit)),
    )

-- The active segment of a store whose append has rolled over is another than that of base offset 0.
closed_dir-zero :
    (ps : PartitionStore) → (0 == ps.active.base_offset) ≡ false → closed_dir ps 0 ≡ ps.dir 0
unfolding closed_dir put_files
closed_dir-zero ps h = rw h

-- With every system call succeeding, for a store as in `append_rolls` whose active segment is the
-- first, of base offset 0: when a record has been accepted that did not fit that segment, and the
-- store is then closed and opened again, the store that is opened holds the log as it was before
-- that record.
pub open_partition_store-append_rolls :
    (ps : PartitionStore) (rs : List Bytes) (p : Bytes)
    → StoreIsReady ps rs
    → ps.active.base_offset ≡ 0
    → IsRecord p
    → ps.active.max_size < ps.active.size + (4 + length p)
    → 4 + length p ≤ ps.cfg.max_size
    → let r = append [] ps p in
      (r.0 ≡ ok 0)
      × IsReopened (open_partition_store [] r.1.dir_name (closed_dir r.1) r.1.cfg).0 r.1.cfg rs
unfolding append_active
open_partition_store-append_rolls ps rs p h first fits full room =
    let (done, _, file, _, _) = append_rolls ps rs h p fits full room in
    let same = append-rolled ps rs h p fits full in
    let cfg' : (append [] ps p).1.cfg ≡ ps.cfg = rw same in
    let elsewhere : (0 == (append [] ps p).1.active.base_offset) ≡ false =
      rw (same, (append-settings [] (rolled ps rs h).active p).0)
        (ground (arith, h.next_is_new.0, first)) in
    let old : ((append [] ps p).1.dir 0).log ≡ wire_all frame rs =
      ap (λ b. ((append [] ps p).1.dir b).log) (sym first) ∙ file in
    (
      done,
      rw cfg' (
          open_partition_store-IsReopened (append [] ps p).1.dir_name
            (closed_dir (append [] ps p).1) ps.cfg rs
            (ap (λ (f : Files). f.log) (closed_dir-zero (append [] ps p).1 elsewhere) ∙ old)
            h.log.records
            (omega (arith, h.log.bounded, h.log.sized, h.configured, ap length h.log.logged))
            h.positive (omega (arith, h.log.small, h.configured))),
    )
