-- ===== src/Storage/Store.antt =====
-- internal/storage/store.go: the store of one topic-partition, which appends to its active segment
-- and rolls over to a new one when that is full. The mutex makes each method one step.
pub mod Rollover
pub mod Window
pub mod Bound
pub mod Restart
use kage.Prelude.{
  ℕ, ◌%◌, Bool, true, false, not, Option, none, some, Bytes, add64, sub64, slt64, sext32, ◌==◌,
  if◌then◌else◌,
}
use kage.Outcome.{Outcome, ok, err, panic}
use kage.Storage.Error.{StorageError, segment_full, invalid_offset, invalid_size, io}
use kage.Storage.Bufio.{Os}
use kage.Storage.Segment
use kage.Storage.Segment.{Segment, SegmentConfig, Files, Section, open_segment, close_segment}

-- What the directory holds under the two names of a base offset, which `%020d` makes one for each
-- offset; files that are not there are empty, since opening creates them.
abbrev pub Dir : Type 0
Dir = ℕ → Files

unfoldable pub put_files : Dir → ℕ → Files → Dir
put_files dir base files b = if b == base then files else dir b

-- The last part of the path of the directory is its name. The files of the active segment are those
-- in its writers; the directory has them once the segment is closed.
pub record PartitionStore : Type 0 where
  pub dir_name : Bytes
  pub dir : Dir
  pub cfg : SegmentConfig
  pub active : Segment
  pub next_base : ℕ

unfoldable pub open_partition_store :
    Os → Bytes → Dir → SegmentConfig → Outcome StorageError PartitionStore × Os
open_partition_store os name dir cfg =
    let (seg, os') = open_segment os (dir 0) 0 cfg in
    elim seg [
      | ok s ↦
          (ok (record { dir_name = name; dir = dir; cfg = cfg; active = s; next_base = 0 }), os')
      | err e ↦ (err e, os')
      | panic ↦ (panic, os')
    ]

-- The files of a segment that has been closed.
unfoldable pub closed_files : Segment → Files
closed_files s = record { log = s.bw.file; index = s.idx.bw.file }

-- The second half of `rollover`: the new segment, once the old one is closed.
unfoldable pub install :
    PartitionStore → Outcome StorageError Segment × Os → Option StorageError × PartitionStore × Os
install ps (ok seg, os) = (none, record ps { active = seg }, os)
install ps (err e, os) = (some e, ps, os)
install ps (panic, os) = (some io, ps, os)

unfoldable pub open_next : Os → PartitionStore → Option StorageError × PartitionStore × Os
open_next os ps = install ps (open_segment os (ps.dir ps.next_base) ps.next_base ps.cfg)

-- `none` is a nil error.
unfoldable pub rollover : Os → PartitionStore → Option StorageError × PartitionStore × Os
rollover os ps =
    let size = ps.active.size in
    let (done, closed, os') = close_segment os ps.active in
    if not done
    then (some io, record ps { active = closed }, os')
    else open_next os' (record ps {
      dir = put_files ps.dir ps.active.base_offset (closed_files closed);
      active = closed;
      next_base = add64 ps.next_base size;
    })

-- One `Append` to the active segment.
unfoldable pub append_active :
    Os → PartitionStore → Bytes → Outcome StorageError ℕ × PartitionStore × Os
append_active os ps payload =
    let (r, active', os') = Segment.append os ps.active payload in
    (r, record ps { active = active' }, os')

-- What `Append` does when the segment was full.
unfoldable pub append_rolled :
    Bytes → Option StorageError × PartitionStore × Os → Outcome StorageError ℕ × PartitionStore × Os
append_rolled payload (some e, ps, os) = (err e, ps, os)
append_rolled payload (none, ps, os) = append_active os ps payload

unfoldable pub append_next :
    Os → PartitionStore → Bytes → Outcome StorageError ℕ × PartitionStore × Os
append_next os ps payload = append_rolled payload (rollover os ps)

-- The test of the first error, and the second attempt.
unfoldable pub append_retry :
    Bytes
    → Outcome StorageError ℕ × PartitionStore × Os
    → Outcome StorageError ℕ × PartitionStore × Os
append_retry payload (err segment_full, ps, os) = append_next os ps payload
append_retry payload (r, ps, os) = (r, ps, os)

unfoldable pub append : Os → PartitionStore → Bytes → Outcome StorageError ℕ × PartitionStore × Os
append os ps payload = append_retry payload (append_active os ps payload)

-- `max_bytes` is an int32, capped to what is available from `fetch_offset` on.
unfoldable pub cap_bytes : PartitionStore → ℕ → ℕ → ℕ
cap_bytes ps fetch_offset max_bytes =
    let available = sub64 ps.active.size fetch_offset in
    if slt64 available (sext32 max_bytes) then available % 0x1_0000_0000 else max_bytes

-- What `Read` makes of the segment's answer.
unfoldable pub served :
    PartitionStore
    → ℕ
    → Outcome StorageError Section × Segment × Os
    → Outcome StorageError (Section × ℕ) × PartitionStore × Os
served ps n (ok section, seg, os) = (ok (section, n), record ps { active = seg }, os)
served ps n (err e, seg, os) = (err e, record ps { active = seg }, os)
served ps n (panic, seg, os) = (panic, record ps { active = seg }, os)

unfoldable pub read :
    Os → PartitionStore → ℕ → ℕ → Outcome StorageError (Section × ℕ) × PartitionStore × Os
read os ps fetch_offset max_bytes =
    if not (slt64 fetch_offset ps.active.size)
    then (err invalid_offset, ps, os)
    else let n = cap_bytes ps fetch_offset max_bytes in
      served ps n (Segment.read os ps.active fetch_offset n)

unfoldable pub size : PartitionStore → ℕ
size ps = ps.active.size

unfoldable pub flush_store : Os → PartitionStore → Bool × PartitionStore × Os
flush_store os ps =
    let (done, active', os') = Segment.flush_segment os ps.active in
    (done, record ps { active = active' }, os')

unfoldable pub close_store : Os → PartitionStore → Bool × PartitionStore × Os
close_store os ps =
    let (done, active', os') = close_segment os ps.active in
    (done, record ps { active = active' }, os')
