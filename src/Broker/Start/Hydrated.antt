-- ===== src/Broker/Start/Hydrated.antt =====
-- Loading the offsets leaves every store with the configured segment size.
use kage.Prelude.{ℕ, ◌≡◌, ◌∙◌, Bool-cases, inl, inr, not, ◌||◌, is_neg32, add64, slt64, ◌==◌}
use kage.Outcome.{Outcome, ok, err, panic}
use kage.Broker.Start.Configured.{
  IsSize, HasConfig, IsConfigured, StoreHas, put_store-HasConfig, get_or_create_partition-Obtains,
}
use kage.Protocol.Messages.Constants.{consumer_offsets_topic}
use kage.Server.Hydrate.{
  HydrateError, hydrated, hydrate_read, hydrate_obtained, hydrate, section_reader, window_size,
}
use kage.Server.OffsetCache.{Loaded, load_offsets_cache}
use kage.Server.Run.{Handler}
use kage.Storage.Bufio.{Os, flush}
use kage.Storage.BrokerStore.{BrokerStore, partition_key, put_store, get_or_create_partition}
use kage.Storage.Error.{StorageError}
use kage.Storage.Segment
use kage.Storage.Segment.{Segment, SegmentConfig, Section}
use kage.Storage.Store
use kage.Storage.Store.{PartitionStore, Dir, served, cap_bytes}

max_size-read :
    (os : Os) (s : Segment) (offset n : ℕ) → (Segment.read os s offset n).1.max_size ≡ s.max_size
unfolding Segment.read
max_size-read os s offset n =
    let done = (flush os s.bw).0 in
    elim (Bool-cases (is_neg32 n || n == 0)) [
      | inl e ↦ rw e
      | inr e ↦ elim (Bool-cases (not (slt64 offset s.size))) [
        | inl f ↦ rw (e, f)
        | inr f ↦ elim (Bool-cases (slt64 s.size (add64 offset n))) [
          | inl g ↦ rw (e, f, g)
          | inr g ↦ elim (Bool-cases done) [ inl d ↦ rw (e, f, g, d) | inr d ↦ rw (e, f, g, d) ]
        ]
      ]
    ]

served-HasConfig :
    (cfg : SegmentConfig) (ps : PartitionStore) (n : ℕ)
    (a : Outcome StorageError Section × Segment × Os)
    → a.1.max_size ≡ ps.active.max_size
    → HasConfig cfg ps
    → HasConfig cfg (served ps n a).1
unfolding served
served-HasConfig cfg ps n (ok _, s, os) e x = (x.0, e ∙ x.1)
served-HasConfig cfg ps n (err _, s, os) e x = (x.0, e ∙ x.1)
served-HasConfig cfg ps n (panic, s, os) e x = (x.0, e ∙ x.1)

read-HasConfig :
    (cfg : SegmentConfig) (os : Os) (ps : PartitionStore) (offset max_bytes : ℕ)
    → HasConfig cfg ps
    → HasConfig cfg (Store.read os ps offset max_bytes).1
unfolding Store.read
read-HasConfig cfg os ps offset max_bytes x =
    let n = cap_bytes ps offset max_bytes in
    elim (Bool-cases (not (slt64 offset ps.active.size))) [
      | inl past ↦ rw past x
      | inr inside ↦ rw inside (
          served-HasConfig cfg ps n (Segment.read os ps.active offset n)
            (max_size-read os ps.active offset n) x)
    ]

module _ (cfg : SegmentConfig) where
  abbrev After : Outcome HydrateError (Unit {0}) × Handler × Os → Type 0
  After (_, h, _) = IsConfigured cfg h.store

  hydrated-After : (h : Handler) (a : Loaded) → IsConfigured cfg h.store → After (hydrated h a)
  unfolding hydrated
  hydrated-After h (ok _, cache, os) c = c
  hydrated-After h (err _, cache, os) c = c
  hydrated-After h (panic, cache, os) c = c

  hydrate_read-After :
      (h : Handler) (bs : BrokerStore)
      (a : Outcome StorageError (Section × ℕ) × PartitionStore × Os)
      → IsConfigured cfg bs
      → HasConfig cfg a.1
      → After (hydrate_read h bs a)
  unfolding hydrate_read
  hydrate_read-After h bs (ok (section, n), ps, os) c x =
      let key = partition_key consumer_offsets_topic 0 in
      let h' = record h { store = record bs { stores = put_store key ps bs.stores } } in
      hydrated-After h' (load_offsets_cache os (section_reader ps.active section) h.offset_cache)
        (c.0, put_store-HasConfig cfg key ps bs.stores x c.1)
  hydrate_read-After h bs (err _, ps, os) c x =
      (c.0, put_store-HasConfig cfg (partition_key consumer_offsets_topic 0) ps bs.stores x c.1)
  hydrate_read-After h bs (panic, ps, os) c x =
      (c.0, put_store-HasConfig cfg (partition_key consumer_offsets_topic 0) ps bs.stores x c.1)

  hydrate_obtained-After :
      (h : Handler) (r : Outcome StorageError PartitionStore) (bs : BrokerStore) (os : Os)
      → StoreHas cfg r
      → IsConfigured cfg bs
      → After (hydrate_obtained h (r, bs, os))
  unfolding hydrate_obtained
  hydrate_obtained-After h (ok ps) bs os x c = elim (Bool-cases (Store.size ps == 0)) [
    | inl empty ↦ rw empty c
    | inr full ↦ rw full (
        hydrate_read-After h bs (Store.read os ps 0 (window_size (Store.size ps))) c
          (read-HasConfig cfg os ps 0 (window_size (Store.size ps)) x))
  ]
  hydrate_obtained-After h (err _) bs os x c = c
  hydrate_obtained-After h panic bs os x c = c

  pub hydrate-After :
      (os : Os) (h : Handler) → IsSize cfg → IsConfigured cfg h.store → After (hydrate os h)
  unfolding hydrate
  hydrate-After os h size c =
      let (r, bs, os') = get_or_create_partition os h.store consumer_offsets_topic 0 in
      let x = get_or_create_partition-Obtains cfg size os h.store consumer_offsets_topic 0 c in
      hydrate_obtained-After h r bs os' x.0 x.1
