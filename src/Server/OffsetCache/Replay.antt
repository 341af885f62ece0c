-- ===== src/Server/OffsetCache/Replay.antt =====
-- Loading the cache replays the records of the log, so a restart finds what was committed.
use kage.Prelude.{
  ℕ, zero, suc, ◌+◌, ◌≤◌, ◌<◌, ◌≡◌, refl, true, false, sym, ◌∙◌, ap, List, [], ◌∷◌, ◌++◌,
  append_assoc, arith, Bytes, length, length-append, take, drop, ◌==◌, take-append_left,
  drop-append_left, All, ltb, wire_all, IsU16, IsU32, IsU64,
}
use kage.Outcome.{Outcome, ok, err, panic}
use kage.Binary.{put_uint32, put_uint64, uint32}
use kage.Binary.RoundTrip.{length-put_uint32, uint32-put_uint32}
use kage.Server.OffsetRecord.{
  OffsetCacheKey, DecodeError, encode_offset_key, encode_offset_record, decode_offset_record,
}
use kage.Server.OffsetRecord.RoundTrip.{decode_offset_record-encode_offset_record}
use kage.Server.OffsetCache.{
  OffsetCache, LoadError, Reader, delivered, Loaded, read_full, absorb, load_body, load_length, put,
  load_loop, load_offsets_cache, finish_commit, commit_offset,
}
use kage.Storage.Error.{StorageError, segment_full, invalid_offset, invalid_size, io}
use kage.Storage.Bufio.{Os, next}
use kage.Storage.Segment
use kage.Storage.Segment.{Segment}
use kage.Storage.Segment.Log.{IsLog, IsRecord, frame, length-frame, Appended, append-Appended}
use kage.Storage.Store
use kage.Storage.Store.{PartitionStore, append_retry, append_active}

-- The records taken one after the other.
unfoldable pub replay : List Bytes → OffsetCache → Outcome LoadError (Unit {0}) × OffsetCache
replay [] cache = (ok tt, cache)
replay (p ∷ rs) cache = absorb (decode_offset_record p) (replay rs) (panic, cache) cache

-- An open reader of these bytes.
abbrev pub reader : Bytes → Reader
reader r = record { is_open = true; rest = r }

-- The result of a loop whose reads have all succeeded.
unfoldable pub at_end : Outcome LoadError (Unit {0}) × OffsetCache → Loaded
at_end (o, cache) = (o, cache, [])

absorb-at_end :
    (o : Outcome DecodeError (OffsetCacheKey × ℕ)) (f : OffsetCache → Loaded)
    (g : OffsetCache → Outcome LoadError (Unit {0}) × OffsetCache) (cache : OffsetCache)
    → ((c : OffsetCache) → f c ≡ at_end (g c))
    → absorb o f (panic, cache, []) cache ≡ at_end (absorb o g (panic, cache) cache)
unfolding absorb
absorb-at_end (ok (key, offset)) f g cache h = h (put key offset cache)
absorb-at_end (err e) f g cache h = h cache
absorb-at_end panic f g cache h = unfold at_end in refl

-- A read of an open file that holds enough succeeds.
read_full_succeeds :
    (r : Bytes) (n : ℕ)
    → ltb (length r) n ≡ false
    → read_full [] (reader r) n ≡ (delivered (take n r), [])
unfolding read_full next
read_full_succeeds r zero h = refl
read_full_succeeds r (suc n) h =
    let asked : (suc n == 0) ≡ false = ground arith in
    let some_left : (length r == 0) ≡ false = ground arith in simp (asked, some_left, h)

-- One round of the loop takes one record.
load_loop-frame :
    (fuel : ℕ) (p rest : Bytes) (cache : OffsetCache)
    → IsRecord p
    → load_loop (suc fuel) [] (reader (frame p ++ rest)) cache
      ≡ absorb
          (decode_offset_record p)
          (λ c. load_loop fuel [] (reader rest) c)
          (panic, cache, [])
          cache
unfolding load_loop load_length load_body frame
load_loop-frame fuel p rest cache h =
    let head = put_uint32 (length p) in
    let body : drop 4 ((head ++ p) ++ rest) ≡ p ++ rest = rw append_assoc (
      ap (λ (n : ℕ). drop n (head ++ (p ++ rest))) (sym (length-put_uint32 (length p)))
      ∙ drop-append_left head (p ++ rest)) in
    let size : uint32 ((head ++ p) ++ rest) ≡ length p =
      rw append_assoc (uint32-put_uint32 (length p) (p ++ rest) ∙ omega arith) in
    let long : ltb (length ((head ++ p) ++ rest)) 4 ≡ false =
      ground (
        arith,
        length-append (head ++ p) rest,
        length-append head p,
        length-put_uint32 (length p),
      ) in
    let fits : ltb (length (p ++ rest)) (length p) ≡ false = ground (arith, length-append p rest) in
    let len_buf = read_full_succeeds ((head ++ p) ++ rest) 4 long in
    let rec = read_full_succeeds (p ++ rest) (length p) fits in
    simp (len_buf, size, body, rec, take-append_left, drop-append_left)

load_loop-replay :
    (fuel : ℕ) (rs : List Bytes) (cache : OffsetCache)
    → All IsRecord rs
    → length (wire_all frame rs) < fuel
    → load_loop fuel [] (reader (wire_all frame rs)) cache ≡ at_end (replay rs cache)
unfolding replay wire_all
load_loop-replay zero rs cache f h = absurd (omega arith)
load_loop-replay (suc fuel) [] cache f h = unfold load_loop load_length read_full at_end in refl
load_loop-replay (suc fuel) (p ∷ rs) cache f h =
    let size = length-append (frame p) (wire_all frame rs) in
    let one = length-frame p in
    load_loop-frame fuel p (wire_all frame rs) cache f.0
    ∙ absorb-at_end (decode_offset_record p) (λ c. load_loop fuel [] (reader (wire_all frame rs)) c)
        (replay rs) cache (λ c. load_loop-replay fuel rs c f.1 (omega arith))

-- With the reads succeeding, loading the cache from a log of records of fewer than 2 ^ 32 bytes each decodes them one after the
-- other, from the first to the last, skipping those that cannot be decoded; it never runs out of
-- rounds.
pub load_offsets_cache-replay :
    (rs : List Bytes) (cache : OffsetCache)
    → All IsRecord rs
    → load_offsets_cache [] (reader (wire_all frame rs)) cache ≡ at_end (replay rs cache)
unfolding load_offsets_cache
load_offsets_cache-replay rs cache f =
    load_loop-replay (suc (length (wire_all frame rs))) rs cache f (omega arith)

absorb-append :
    (o : Outcome DecodeError (OffsetCacheKey × ℕ)) (rs : List Bytes) (p : Bytes)
    (from to : OffsetCache)
    → absorb o (replay rs) (panic, from) from ≡ (ok tt, to)
    → ((c : OffsetCache) → replay rs c ≡ (ok tt, to) → replay (rs ++ p ∷ []) c ≡ replay (p ∷ []) to)
    → absorb o (replay (rs ++ p ∷ [])) (panic, from) from ≡ replay (p ∷ []) to
unfolding absorb
absorb-append (ok (key, offset)) rs p from to h next = next (put key offset from) h
absorb-append (err e) rs p from to h next = next from h
absorb-append panic rs p from to h next = absurd (let e = ap (λ r. r.0) h in ground arith)

-- The records replayed so far, and one more.
replay-append :
    (rs : List Bytes) (p : Bytes) (from to : OffsetCache)
    → replay rs from ≡ (ok tt, to)
    → replay (rs ++ p ∷ []) from ≡ replay (p ∷ []) to
unfolding replay
replay-append [] p from to h = ap (λ c. replay (p ∷ []) c) (ap (λ r. r.1) h)
replay-append (x ∷ rs) p from to h =
    absorb-append (decode_offset_record x) rs p from to h (λ c k. replay-append rs p c to k)

pub record KeyFits (key : OffsetCacheKey) : Type 0 where
  pub group_id : IsU16 (length key.group_id)
  pub topic : IsU16 (length key.topic)
  pub partition : IsU32 key.partition

-- The record that a commit appends.
abbrev pub commit_record : OffsetCacheKey → ℕ → Bytes
commit_record key offset =
    encode_offset_record (encode_offset_key key.group_id key.topic key.partition)
      (put_uint64 offset)

replay-commit_record :
    (key : OffsetCacheKey) (offset : ℕ) (cache : OffsetCache)
    → KeyFits key
    → IsU64 offset
    → replay (commit_record key offset ∷ []) cache ≡ (ok tt, put key offset cache)
unfolding replay absorb
replay-commit_record key offset cache f h = simp (
    decode_offset_record-encode_offset_record key.group_id key.topic key.partition offset f.group_id
      f.topic f.partition h)

module _ (ps : PartitionStore) (rs : List Bytes) (key : OffsetCacheKey) (offset : ℕ)
    (start cache : OffsetCache) (f : KeyFits key) (h : IsU64 offset)
    (in_step : replay rs start ≡ (ok tt, cache)) where
  abbrev record' : Bytes
  record' = commit_record key offset

  -- What is left to show, for each outcome of the append to the active segment.
  finish_commit-Appended :
      (o : Outcome StorageError ℕ) (s : Segment) (os : Os)
      → ps.active.size + (4 + length record') ≤ ps.active.max_size
      → Appended ps.active rs record' o s
      → let r =
          finish_commit key offset cache (append_retry record' (o, record ps { active = s }, os)) in
        r.0 ≡ ok tt
        → IsLog r.1.active (rs ++ record' ∷ []) × (replay (rs ++ record' ∷ []) start ≡ (ok tt, r.2))
  unfolding finish_commit append_retry
  finish_commit-Appended (ok place) s os room a e = (
    a.1,
    replay-append rs record' start cache in_step ∙ replay-commit_record key offset cache f h,
  )
  finish_commit-Appended (err segment_full) s os room a e = absurd (omega (arith, a.1))
  finish_commit-Appended (err invalid_offset) s os room a e = absurd a
  finish_commit-Appended (err invalid_size) s os room a e = absurd a
  finish_commit-Appended (err io) s os room a e = absurd (ground arith)
  finish_commit-Appended panic s os room a e = absurd a

  -- Suppose that the active segment of the offsets store holds a log whose replay from `start` gives
  -- the cache, and has room for the commit record of a key and an offset that fit their fields. If
  -- the commit of that offset succeeds, the segment holds the log with the record behind it, and
  -- loading that log from `start`, the reads succeeding, gives, without an error, the cache after
  -- the commit.
  pub commit_offset-load :
      (os : Os)
      → IsLog ps.active rs
      → IsRecord record'
      → ps.active.size + (4 + length record') ≤ ps.active.max_size
      → let r = commit_offset os ps cache key offset in
        r.0 ≡ ok tt
        → IsLog r.1.active (rs ++ record' ∷ [])
          × (load_offsets_cache [] (reader (wire_all frame (rs ++ record' ∷ []))) start
              ≡ (ok tt, r.2, []))
  unfolding commit_offset Store.append append_active at_end
  commit_offset-load os log fits room done =
      let m = Segment.append os ps.active record' in
      let (log', same) =
        finish_commit-Appended m.0 m.1 m.2 room (append-Appended ps.active rs record' log fits os)
          done in
      (log', load_offsets_cache-replay (rs ++ record' ∷ []) start log'.records ∙ ap at_end same)
