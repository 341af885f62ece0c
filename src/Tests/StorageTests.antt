-- ===== src/Tests/StorageTests.antt =====
-- Runs of internal/storage and of the offset records on concrete data.
use kage.Prelude.{
  true, ℕ, zero, suc, ◌-◌, ◌≡◌, ◌≤◌, ◌<◌, refl, none, some, List, [], ◌∷◌, ◌++◌, arith, Bytes, take,
  drop, min, wire_all, add64,
}
use mathlib.Core.Option
use kage.Outcome.{ok, err}
use kage.Binary.{put_uint32, put_uint64}
use kage.Server.OffsetRecord.{encode_offset_key, encode_offset_record, decode_offset_record}
use kage.Server.OffsetRecord.RoundTrip.{decode_offset_record-encode_offset_record}
use kage.Storage.Error.{segment_full}
use kage.Storage.Bufio.{new_writer}
use kage.Storage.Bufio.Contents.{contents}
use kage.Storage.Index.{Entry, Index, lookup}
use kage.Storage.Index.Lookup.{IsSorted, scan, lookup-scan}
use kage.Storage.Segment
use kage.Storage.Segment.{Segment, Files, read_at, read_section}
use kage.Storage.Segment.Log.{IsLog, frame, Appended, append-Appended}
use kage.Storage.Segment.ReadBack.{read_at-append}
use kage.Storage.Segment.Success.{SegmentIsReady, append_succeeds, fresh}
use kage.Storage.Store.{PartitionStore, append, read, open_partition_store, close_store}
use kage.Storage.Store.Restart.{
  IsReopened, closed_dir, open_partition_store-close_store, open_partition_store-append_rolls,
}
use kage.Storage.Store.Rollover.{StoreIsReady, append_rolls, append_too_large}
use kage.Storage.Store.Window.{read-window}

abbrev abc : Bytes
abc = b'a' ∷ b'b' ∷ b'c' ∷ []

abbrev no_entries : Index
no_entries = record { bw = new_writer []; entries = []; bytes_written_since_last_entry = 7 }

-- A segment with the record "abc" in its file, which fills 7 bytes, and room for `max_size`.
abbrev one_record : ℕ → Segment
one_record max_size = record {
  bw = new_writer (frame abc);
  idx = no_entries;
  base_offset = 0;
  size = 7;
  max_size = max_size;
}

one_record-IsLog :
    (max_size : ℕ)
    → 7 ≤ max_size
    → max_size < 0x4000_0000_0000_0000
    → IsLog (one_record max_size) (abc ∷ [])
unfolding new_writer wire_all frame put_uint32
one_record-IsLog max_size h k = record {
  healthy = refl;
  logged = refl;
  sized = refl;
  bounded = h;
  small = k;
  records = (omega arith, tt);
}

roomy-IsLog : IsLog (one_record 100) (abc ∷ [])
roomy-IsLog = one_record-IsLog 100 (omega arith) (omega arith)

store-IsLog : IsLog (one_record 12) (abc ∷ [])
store-IsLog = one_record-IsLog 12 (omega arith) (omega arith)

one_record-IsReady : (max_size : ℕ) → SegmentIsReady (one_record max_size)
unfolding new_writer
one_record-IsReady max_size = record {
  log = record { healthy = refl; is_open = refl };
  index = record { healthy = refl; is_open = refl };
}

-- The first write fails after two bytes.
append-Appended_example :
    let r = Segment.append (some 2 ∷ []) (one_record 100) abc in
    Appended (one_record 100) (abc ∷ []) abc r.0 r.1
append-Appended_example =
    append-Appended (one_record 100) (abc ∷ []) abc roomy-IsLog (omega arith) (some 2 ∷ [])

read_at-append_example : (read_at [] (Segment.append [] (one_record 100) abc).1 7).0 ≡ ok abc
read_at-append_example =
    read_at-append [] (one_record 100) (abc ∷ []) abc 7 roomy-IsLog (omega arith)
      (append_succeeds (one_record 100) abc (one_record-IsReady 100) roomy-IsLog (omega arith)
        (omega arith)).0
      (append_succeeds (one_record 100) abc (one_record-IsReady 100) roomy-IsLog (omega arith)
        (omega arith)).1.log.is_open

abbrev store : PartitionStore
store = record {
  dir_name = b't' ∷ b'-' ∷ b'3' ∷ [];
  dir = λ _. record { log = []; index = [] };
  cfg = record { max_size = 12; retention = 0 };
  active = one_record 12;
  next_base = 0;
}

store-IsReady : StoreIsReady store (abc ∷ [])
store-IsReady = record {
  log = store-IsLog;
  ready = one_record-IsReady 12;
  configured = refl;
  positive = omega arith;
  next_is_new = (refl, refl);
}

append_rolls_example :
    let r = append [] store abc in
    (r.0 ≡ ok 0)
    × IsLog r.1.active (abc ∷ [])
    × ((r.1.dir 0).log ≡ wire_all frame (abc ∷ []))
    × (r.1.next_base ≡ add64 0 7)
    × (r.1.active.base_offset ≡ add64 0 7)
append_rolls_example =
    append_rolls store (abc ∷ []) store-IsReady abc (omega arith) (omega arith) (omega arith)

-- The store is closed and opened again.
open_partition_store-close_store_example :
    ((close_store [] store).0 ≡ true)
    × IsReopened
        (open_partition_store [] store.dir_name (closed_dir store) store.cfg).0
        store.cfg
        (abc ∷ [])
open_partition_store-close_store_example =
    open_partition_store-close_store store (abc ∷ []) store-IsLog (one_record-IsReady 12) refl
      (omega arith) refl

-- The second record is behind a rollover.
open_partition_store-append_rolls_example :
    let r = append [] store abc in
    (r.0 ≡ ok 0)
    × IsReopened
        (open_partition_store [] r.1.dir_name (closed_dir r.1) r.1.cfg).0
        r.1.cfg
        (abc ∷ [])
open_partition_store-append_rolls_example =
    open_partition_store-append_rolls store (abc ∷ []) abc store-IsReady refl (omega arith)
      (omega arith) (omega arith)

append_too_large_example :
    let r = append [] store (abc ++ (abc ++ abc)) in
    (r.0 ≡ err segment_full)
    × (r.1.active ≡ fresh (add64 0 7) 12)
    × ((r.1.dir 0).log ≡ wire_all frame (abc ∷ []))
append_too_large_example =
    append_too_large store (abc ∷ []) store-IsReady (abc ++ (abc ++ abc)) (omega arith)
      (omega arith)

read-window_example :
    let r = read [] store 4 100 in
    (r.0 ≡ ok (record { offset = 4; size = min 100 (7 - 4) }, min 100 (7 - 4)))
    × ((read_section [] r.1.active
          (record { offset = 4; size = min 100 (7 - 4) })
          (min 100 (7 - 4))).0
        ≡ some (take (min 100 (7 - 4)) (drop 4 (contents (one_record 12).bw))))
unfolding new_writer
read-window_example =
    read-window store (abc ∷ []) store-IsLog 4 100 (omega arith) (omega arith) (omega arith) refl

abbrev two_entries : List Entry
two_entries = record { offset = 4; position = 4 } ∷ record { offset = 5000; position = 5000 } ∷ []

two_entries-IsSorted : IsSorted two_entries
two_entries-IsSorted zero zero a b h p q = ground arith
two_entries-IsSorted zero (suc zero) a b h p q = ground arith
two_entries-IsSorted (suc zero) zero a b h p q = absurd (omega arith)
two_entries-IsSorted (suc zero) (suc zero) a b h p q = ground arith
two_entries-IsSorted zero (suc (suc j)) a b h p q = absurd (ground arith)
two_entries-IsSorted (suc i) (suc (suc j)) a b h p q = absurd (ground arith)
two_entries-IsSorted (suc (suc i)) j a b h p q = absurd (ground arith)

abbrev two : Index
two = record no_entries { entries = two_entries }

lookup-scan_example : lookup two 4999 ≡ Option.map (λ e. e.position) (scan two_entries 4999 none)
lookup-scan_example = lookup-scan two 4999 two_entries-IsSorted

decode_offset_record-encode_offset_record_example :
    decode_offset_record
      (encode_offset_record (encode_offset_key abc (b't' ∷ []) 3) (put_uint64 42))
    ≡ ok (record { group_id = abc; topic = b't' ∷ []; partition = 3 }, 42)
decode_offset_record-encode_offset_record_example =
    decode_offset_record-encode_offset_record abc (b't' ∷ []) 3 42 (omega arith) (omega arith)
      (omega arith) (omega arith)
