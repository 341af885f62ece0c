-- ===== src/Server/OffsetCache.antt =====
-- The cache of committed offsets of internal/server/handler.go: the commit of one offset in
-- `handleOffsetCommit`, the lookup of `handleOffsetFetch`, and `LoadOffsetsCache`. The lock makes
-- each of them one step.
pub mod Replay
pub mod Safety
use kage.Prelude.{
  bytes_eq, ℕ, zero, suc, Bool, true, false, ◌&&◌, Option, none, some, List, [], ◌∷◌, Bytes, length,
  take, drop, ltb, ◌==◌, if◌then◌else◌,
}
use kage.Outcome.{Outcome, ok, err, panic}
use kage.Binary.{put_uint64, uint32}
use kage.Protocol.Messages.Constants.{offset_unknown}
use kage.Server.OffsetRecord.{
  OffsetCacheKey, DecodeError, encode_offset_key, encode_offset_record, decode_offset_record,
}
use kage.Storage.Error.{StorageError}
use kage.Storage.Bufio.{Os, next}
use kage.Storage.Store
use kage.Storage.Store.{PartitionStore}

-- The equality of keys, which Go's map uses.
unfoldable pub key_eq : OffsetCacheKey → OffsetCacheKey → Bool
key_eq a b =
    bytes_eq a.group_id b.group_id && (bytes_eq a.topic b.topic && (a.partition == b.partition))

abbrev pub OffsetCache : Type 0
OffsetCache = OffsetCacheKey → Option ℕ

unfoldable pub empty_cache : OffsetCache
empty_cache key = none

-- h.offsetCache[key] = offset
unfoldable pub put : OffsetCacheKey → ℕ → OffsetCache → OffsetCache
put key offset cache k = if key_eq key k then some offset else cache k

-- The offset that `handleOffsetFetch` answers with: -1 if none was committed.
unfoldable pub fetch_committed : OffsetCache → OffsetCacheKey → ℕ
fetch_committed cache key = elim (cache key) [ none ↦ offset_unknown | some offset ↦ offset ]

-- What follows the append of a commit record; the error code of the response is 1 after an error.
unfoldable pub finish_commit :
    OffsetCacheKey
    → ℕ
    → OffsetCache
    → Outcome StorageError ℕ × PartitionStore × Os
    → Outcome ℕ (Unit {0}) × PartitionStore × OffsetCache × Os
finish_commit key offset cache (ok _, ps, os) = (ok tt, ps, put key offset cache, os)
finish_commit key offset cache (err _, ps, os) = (err 1, ps, cache, os)
finish_commit key offset cache (panic, ps, os) = (panic, ps, cache, os)

-- The body of the loop over the partitions in `handleOffsetCommit`, from where the store of the
-- offsets topic has been found.
unfoldable pub commit_offset :
    Os
    → PartitionStore
    → OffsetCache
    → OffsetCacheKey
    → ℕ
    → Outcome ℕ (Unit {0}) × PartitionStore × OffsetCache × Os
commit_offset os ps cache key offset =
    let record' =
      encode_offset_record (encode_offset_key key.group_id key.topic key.partition)
        (put_uint64 offset) in
    finish_commit key offset cache (Store.append os ps record')

-- A read failed at the length of a record, or the body of one was not read whole.
pub data LoadError : Type 0 where
  record_length : LoadError
  record_body : LoadError

-- The reader of a section: whether its file is open, and what is left of the window.
pub record Reader : Type 0 where
  pub is_open : Bool
  pub rest : Bytes

-- What io.ReadFull returns: the bytes, io.EOF or io.ErrUnexpectedEOF, or the error of a read.
pub data Delivery : Type 0 where
  delivered : Bytes → Delivery
  ended : Delivery
  failed : Delivery

-- io.ReadFull of `n` bytes. The file is not read for no bytes and not at the end of the window.
unfoldable pub read_full : Os → Reader → ℕ → Delivery × Os
read_full os r n =
    let (o, os') = if r.is_open then next os else (some 0, os) in
    if n == 0 then (delivered [], os) else if length r.rest == 0 then (ended, os) else elim o [
      | some _ ↦ (failed, os')
      | none ↦ ((if ltb (length r.rest) n then ended else delivered (take n r.rest)), os')
    ]

-- What the loop leaves: its error, the cache, and the outcomes to come.
abbrev pub Loaded : Type 0
Loaded = Outcome LoadError (Unit {0}) × OffsetCache × Os

-- The end of one round of the loop: a record that cannot be decoded is skipped.
unfoldable pub absorb :
    {R : Type 0}
    → Outcome DecodeError (OffsetCacheKey × ℕ)
    → (OffsetCache → R)
    → R
    → OffsetCache
    → R
absorb (ok (key, offset)) more panicked cache = more (put key offset cache)
absorb (err e) more panicked cache = more cache
absorb panic more panicked cache = panicked

-- What follows the read of a record's body.
unfoldable pub load_body : Delivery → (OffsetCache → Loaded) → Os → OffsetCache → Loaded
load_body (delivered rec) more os cache =
    absorb (decode_offset_record rec) more (panic, cache, os) cache
load_body ended more os cache = (err record_body, cache, os)
load_body failed more os cache = (err record_body, cache, os)

-- What follows the read of a record's length; the log may end there, or inside the length.
unfoldable pub load_length : Delivery → Loaded → Os → OffsetCache → Loaded
load_length (delivered _) more os cache = more
load_length ended more os cache = (ok tt, cache, os)
load_length failed more os cache = (err record_length, cache, os)

-- The loop of `LoadOffsetsCache` over the bytes that the reader delivers. Every round takes at
-- least four bytes, so more rounds than there are bytes are enough.
unfoldable pub load_loop : ℕ → Os → Reader → OffsetCache → Loaded
load_loop zero os r cache = (ok tt, cache, os)
load_loop (suc fuel) os r cache =
    let rec_len = uint32 r.rest in
    let body = record r { rest = drop 4 r.rest } in
    let behind = record r { rest = drop rec_len body.rest } in
    let (len_buf, os1) = read_full os r 4 in
    let (rec, os2) = read_full os1 body rec_len in
    let more = λ (c : OffsetCache). load_loop fuel os2 behind c in
    load_length len_buf (load_body rec more os2 cache) os1 cache

unfoldable pub load_offsets_cache : Os → Reader → OffsetCache → Loaded
load_offsets_cache os r cache = load_loop (suc (length r.rest)) os r cache
