-- ===== src/Server/OffsetCache/Safety.antt =====
-- The replay of any log of records ends well.
use kage.Prelude.{ℕ, ◌≡◌, ◌≢◌, refl, List, [], ◌∷◌, Bytes}
use kage.Outcome.{Outcome, ok, err, panic}
use kage.Server.OffsetRecord.{OffsetCacheKey, DecodeError, decode_offset_record}
use kage.Server.OffsetRecord.Safety.{decode_offset_record-panic}
use kage.Server.OffsetCache.{OffsetCache, LoadError, absorb, put}
use kage.Server.OffsetCache.Replay.{replay}

absorb_succeeds :
    (o : Outcome DecodeError (OffsetCacheKey × ℕ))
    (next : OffsetCache → Outcome LoadError (Unit {0}) × OffsetCache)
    (panicked : Outcome LoadError (Unit {0}) × OffsetCache) (cache : OffsetCache)
    → o ≢ panic
    → ((c : OffsetCache) → (next c).0 ≡ ok tt)
    → (absorb o next panicked cache).0 ≡ ok tt
unfolding absorb
absorb_succeeds (ok (key, offset)) next panicked cache h k = k (put key offset cache)
absorb_succeeds (err e) next panicked cache h k = k cache
absorb_succeeds panic next panicked cache h k = absurd (h refl)

pub replay_succeeds : (rs : List Bytes) (cache : OffsetCache) → (replay rs cache).0 ≡ ok tt
unfolding replay
replay_succeeds [] cache = refl
replay_succeeds (p ∷ rs) cache =
    absorb_succeeds (decode_offset_record p) (replay rs) (panic, cache) cache
      (decode_offset_record-panic p) (replay_succeeds rs)
