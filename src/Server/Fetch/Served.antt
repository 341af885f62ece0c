-- ===== src/Server/Fetch/Served.antt =====
-- What a client fetches at the place of a record.
use kage.Prelude.{
  ℕ, ◌+◌, ◌%◌, ◌-◌, ◌≤◌, ◌<◌, ◌≡◌, ◌≢◌, refl, sym, ap, ◌∙◌, true, false, some, List, [], ◌∷◌, ◌++◌,
  append-nil, arith, Bytes, length, length-append, take, drop, min, take_all, drop-append_left,
  wire_all, wire_all-append, ltb, slt32, slt64, is_neg32, add32, sub32, ◌==◌, ◌||◌, if◌then◌else◌,
}
use kage.Outcome.{Outcome, ok, err, panic}
use kage.Binary.{put_uint32}
use kage.Binary.RoundTrip.{length-put_uint32}
use kage.Protocol.Messages.Fetch.{FetchPartitionData, FetchPartitionResponse}
use kage.Server.Fetch.{serve_raw, serve_read, fetch_from}
use kage.Server.Patch.{patch_batches}
use kage.Server.Patch.Batches.{IsWhole, rebased, rebased_all, patch_batches-join, length-rebased}
use kage.Storage.Error.{StorageError, segment_full, invalid_offset, invalid_size, io}
use kage.Storage.Bufio.{Os}
use kage.Storage.Bufio.Contents.{contents, flush_succeeds}
use kage.Storage.Segment
use kage.Storage.Segment.{Segment, read_section}
use kage.Storage.Segment.Log.{IsLog, IsRecord, frame, length-frame, Appended, append-Appended}
use kage.Storage.Store
use kage.Storage.Store.{PartitionStore, append_active, append_retry}
use kage.Storage.Store.Window.{read_section-flushed, read-served}

-- The patch of a payload that is one whole batch.
patch_batches-one : (offset : ℕ) (p : Bytes) → IsWhole p → patch_batches offset p ≡ rebased offset p
unfolding wire_all rebased_all
patch_batches-one offset p w =
    simp append-nil at (patch_batches-join offset (p ∷ []) [] (w, tt) (λ h. absurd (omega arith)))

-- The response to a partition for which the one batch `p` is served.
abbrev pub answer : FetchPartitionData → ℕ → Bytes → ℕ → FetchPartitionResponse × ℕ
answer part size p remaining = (
  record {
    record_batch = some (rebased part.fetch_offset p);
    high_watermark = size;
    batch_size = length p;
    partition = part.partition;
    error_code = 0;
  },
  remaining - length p,
)

serve_raw-frame :
    (remaining size : ℕ) (part : FetchPartitionData) (p : Bytes)
    → IsWhole p
    → length p ≤ remaining
    → remaining < 0x8000_0000
    → serve_raw remaining part size (some (frame p)) ≡ answer part size p remaining
unfolding serve_raw frame
serve_raw-frame remaining size part p w fits small =
    let head = put_uint32 (length p) in
    let body : drop 4 (head ++ p) ≡ p =
      ap (λ (n : ℕ). drop n (head ++ p)) (sym (length-put_uint32 (length p)))
      ∙ drop-append_left head p in
    let long : ltb (length (head ++ p)) 4 ≡ false =
      ground (arith, length-append head p, length-put_uint32 (length p)) in
    let enough : 27 ≤ length p = w.long_enough in
    let same = length-rebased part.fetch_offset p (omega arith) in
    let size' : length p % 0x1_0000_0000 ≡ length p = omega arith in
    let left : sub32 remaining (length p) ≡ remaining - length p = omega arith in
    rw (long, body, patch_batches-one part.fetch_offset p w, same, size', left)

module _ (ps : PartitionStore) (before : List Bytes) (p : Bytes)
    (log : IsLog ps.active (before ++ p ∷ [])) where
  -- What the segment holds from the record `p` on.
  drop-contents : drop (length (wire_all frame before)) (contents ps.active.bw) ≡ frame p
  unfolding wire_all
  drop-contents =
      rw (log.logged, wire_all-append frame before (p ∷ []), append-nil)
        (drop-append_left (wire_all frame before) (frame p))

  pub size-split : ps.active.size ≡ length (wire_all frame before) + (4 + length p)
  unfolding wire_all
  size-split = omega (
    arith,
    log.sized,
    ap length log.logged,
    ap length (wire_all-append frame before (p ∷ [])),
    length-append (wire_all frame before) (frame p ++ []),
    ap length (append-nil (frame p)),
    length-frame p,
  )

  module _ (is_open : ps.active.bw.is_open ≡ true) (remaining : ℕ) (part : FetchPartitionData)
      (here : part.fetch_offset ≡ length (wire_all frame before)) (whole : IsWhole p)
      (fits : length p ≤ remaining) (small : remaining < 0x7fff_fffc) where
    abbrev n : ℕ
    n = 4 + length p

    serve_read-last :
        (max_bytes : ℕ)
        → n ≤ max_bytes
        → max_bytes < 0x8000_0000
        → (serve_read remaining part ps.active.size
            (Store.read [] ps part.fetch_offset max_bytes)).0
          ≡ ok (answer part ps.active.size p remaining)
    unfolding serve_read
    serve_read-last max_bytes a b =
        let split = size-split in
        let read' =
          read-served ps (before ++ p ∷ []) log part.fetch_offset max_bytes (omega arith)
            (omega arith) b is_open in
        let window : min max_bytes (ps.active.size - part.fetch_offset) ≡ n = omega arith in
        let raw =
          read_section-flushed ps.active (before ++ p ∷ []) log is_open part.fetch_offset n
            (omega arith) (omega arith) (omega arith) in
        let record' : take n (drop part.fetch_offset (contents ps.active.bw)) ≡ frame p =
          rw (here, drop-contents, sym (length-frame p))
            (take_all (length (frame p)) (frame p) (omega arith)) in
        let rest = (flush_succeeds ps.active.bw log.healthy is_open).1 in
        rw (read', window, rest, raw, record')
          (ap (λ r. ok r)
            (serve_raw-frame remaining ps.active.size part p whole fits (omega arith)))

    -- The last record is served.
    pub fetch_from-last :
        length p ≤ part.partition_max_bytes
        → part.partition_max_bytes < 0x7fff_fffc
        → (fetch_from remaining part [] ps).0 ≡ ok (answer part ps.active.size p remaining)
    unfolding fetch_from Store.size
    fetch_from-last fits_part small_part =
        let cap =
          if slt32 remaining part.partition_max_bytes
          then remaining
          else part.partition_max_bytes in
        let enough : 27 ≤ length p = whole.long_enough in
        let split = size-split in
        let wide : (length p ≤ cap) × (cap < 0x7fff_fffc) = ground arith in
        let behind : (part.fetch_offset == ps.active.size) ≡ false = ground arith in
        let inside : slt64 ps.active.size part.fetch_offset ≡ false =
          ground (arith, log.small, log.bounded) in
        let some_cap : (is_neg32 cap || cap == 0) ≡ false = ground (arith, wide.0, wide.1) in
        let sum : add32 cap 4 ≡ cap + 4 = omega (arith, wide.1) in
        simp (behind, inside, some_cap, sum)
          (serve_read-last (cap + 4) (omega (arith, wide.0)) (omega (arith, wide.1)))

retry-same :
    (p : Bytes) (r : Outcome StorageError ℕ × PartitionStore × Os)
    → r.0 ≢ err segment_full
    → append_retry p r ≡ r
unfolding append_retry
retry-same p (ok offset, ps, os) h = refl
retry-same p (err segment_full, ps, os) h = absurd (h refl)
retry-same p (err invalid_offset, ps, os) h = refl
retry-same p (err invalid_size, ps, os) h = refl
retry-same p (err io, ps, os) h = refl
retry-same p (panic, ps, os) h = refl

-- A record that has room goes to the active segment.
pub append-active :
    (os : Os) (ps : PartitionStore) (rs : List Bytes) (p : Bytes)
    → IsLog ps.active rs
    → IsRecord p
    → ps.active.size + (4 + length p) ≤ ps.active.max_size
    → Store.append os ps p ≡ append_active os ps p
unfolding Store.append append_active
append-active os ps rs p log fits room = retry-same p (append_active os ps p) (λ e.
    let (_, full) =
      (let x : Appended ps.active rs p (err segment_full) (Segment.append os ps.active p).1 =
          rw e at (append-Appended ps.active rs p log fits os) in
        x) in
    omega arith)

-- What is produced can be fetched. If `Append` to a store whose active segment holds a log with room
-- for the record, of a whole batch of fewer than 2 ^ 32 bytes, returned an offset and the file is
-- still open, then a fetch at that offset answers with that batch, its base offset rewritten,
-- without an error and with the size of the segment as the high watermark, and takes the length of
-- the batch from the budget. Both the budget and the maximum of the partition hold the batch and are
-- below 0x7ffffffc, where the sum with the header would wrap. The system calls of the append go as
-- they may, those of the fetch succeed.
pub fetch_from-append :
    (os : Os) (ps : PartitionStore) (rs : List Bytes) (p : Bytes) (remaining : ℕ)
    (part : FetchPartitionData)
    → IsLog ps.active rs
    → IsRecord p
    → IsWhole p
    → ps.active.size + (4 + length p) ≤ ps.active.max_size
    → (Store.append os ps p).0 ≡ ok part.fetch_offset
    → (Store.append os ps p).1.active.bw.is_open ≡ true
    → length p ≤ remaining
    → remaining < 0x7fff_fffc
    → length p ≤ part.partition_max_bytes
    → part.partition_max_bytes < 0x7fff_fffc
    → let ps' = (Store.append os ps p).1 in
      (fetch_from remaining part [] ps').0 ≡ ok (answer part (Store.size ps') p remaining)
unfolding append_active Store.size
fetch_from-append os ps rs p remaining part log fits whole room done is_open a b c d =
    let same = append-active os ps rs p log fits room in
    let done' : (Segment.append os ps.active p).0 ≡ ok part.fetch_offset = rw same at done in
    let (place, log') =
      (let x : Appended ps.active rs p (ok part.fetch_offset) (Segment.append os ps.active p).1 =
          rw done' at (append-Appended ps.active rs p log fits os) in
        x) in
    let here : part.fetch_offset ≡ length (wire_all frame rs) =
      place ∙ log.sized ∙ ap length log.logged in
    let is_open' : (append_active os ps p).1.active.bw.is_open ≡ true = rw same at is_open in
    rw same (
      fetch_from-last (append_active os ps p).1 rs p log' is_open' remaining part here whole a b c
        d)
