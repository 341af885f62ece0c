-- ===== src/Broker/Start/Configured.antt =====
-- Every store that the broker opens works with the configured segment size.
use kage.Prelude.{
  ℕ, ◌<◌, ◌≤◌, ◌≡◌, refl, sym, Bool-cases, Option-cases, inl, inr, false, ◌||◌, Option, none, some,
  List, [], ◌∷◌, arith, Bytes, bytes_eq, All, is_neg64, ◌==◌,
}
use kage.Outcome.{Outcome, ok, err, panic}
use kage.Storage.Error.{StorageError}
use kage.Storage.Bufio.{Os, next, new_writer, call}
use kage.Storage.Index.{open_index}
use kage.Storage.Segment.{Segment, SegmentConfig, Files, open_segment}
use kage.Storage.Store.{PartitionStore, Dir, open_partition_store}
use kage.Storage.BrokerStore.{
  BrokerStore, DirEntry, partition_key, find_store, put_store, add_store, open_created, obtain,
  get_or_create_partition, loaded, load_entry, load_stores, open_broker_store, parse_dir_name,
}

-- A size that `OpenSegment` does not replace by its default.
abbrev pub IsSize : SegmentConfig → Type 0
IsSize cfg = (1 ≤ cfg.max_size) × (cfg.max_size < 0x8000_0000_0000_0000)

abbrev OpenedWith : SegmentConfig → Outcome StorageError Segment → Type 0
OpenedWith cfg (ok s) = s.max_size ≡ cfg.max_size
OpenedWith cfg (err _) = Unit {0}
OpenedWith cfg panic = Unit {0}

open_segment-OpenedWith :
    (os : Os) (files : Files) (base : ℕ) (cfg : SegmentConfig)
    → IsSize cfg
    → OpenedWith cfg (open_segment os files base cfg).0
unfolding open_segment
open_segment-OpenedWith os files base cfg h =
    let w = new_writer files.log in
    let given : (is_neg64 cfg.max_size || cfg.max_size == 0) ≡ false = ground (arith, h.0, h.1) in
    let (opened, os1) = call os w in
    let (stated, os2) = call os1 w in
    elim (Option-cases opened) [
      | inr (_, e) ↦ simp (open_segment, e) tt
      | inl e ↦ elim (Option-cases stated) [
        | inr (_, f) ↦ simp (open_segment, e, f) tt
        | inl f ↦ elim (Option-cases (open_index os2 files.index).0) [
          | inl g ↦ simp (open_segment, e, f, g) tt
          | inr (idx, g) ↦ simp (open_segment, e, f, g, given)
        ]
      ]
    ]

-- A store with this configuration, and an active segment of that size.
abbrev pub HasConfig : SegmentConfig → PartitionStore → Type 0
HasConfig cfg ps = (ps.cfg ≡ cfg) × (ps.active.max_size ≡ cfg.max_size)

abbrev pub StoreHas : SegmentConfig → Outcome StorageError PartitionStore → Type 0
StoreHas cfg (ok ps) = HasConfig cfg ps
StoreHas cfg (err _) = Unit {0}
StoreHas cfg panic = Unit {0}

-- Every store of the map is one of these.
abbrev pub IsConfigured : SegmentConfig → BrokerStore → Type 0
IsConfigured cfg bs =
    (bs.cfg ≡ cfg) × All (λ (e : Bytes × PartitionStore). HasConfig cfg e.1) bs.stores

pub put_store-HasConfig :
    (cfg : SegmentConfig) (key : Bytes) (ps : PartitionStore)
    (stores : List (Bytes × PartitionStore))
    → HasConfig cfg ps
    → All (λ (e : Bytes × PartitionStore). HasConfig cfg e.1) stores
    → All (λ (e : Bytes × PartitionStore). HasConfig cfg e.1) (put_store key ps stores)
unfolding put_store
put_store-HasConfig cfg key ps [] x a = (x, tt)
put_store-HasConfig cfg key ps ((k, old) ∷ rest) x a = elim (Bool-cases (bytes_eq k key)) [
  | inl same ↦ rw same (x, a.1)
  | inr other ↦ rw other (a.0, put_store-HasConfig cfg key ps rest x a.1)
]

find_store-HasConfig :
    (cfg : SegmentConfig) (key : Bytes) (ps : PartitionStore)
    (stores : List (Bytes × PartitionStore))
    → All (λ (e : Bytes × PartitionStore). HasConfig cfg e.1) stores
    → find_store key stores ≡ some ps
    → HasConfig cfg ps
unfolding find_store
find_store-HasConfig cfg key ps [] a h = absurd cc
find_store-HasConfig cfg key ps ((k, old) ∷ rest) a h = elim (Bool-cases (bytes_eq k key)) [
  | inl same ↦ let e : old ≡ ps = ground (arith, h, same) in rw (sym e) a.0
  | inr other ↦ find_store-HasConfig cfg key ps rest a.1 (rw other at h)
]

open_partition_store-HasConfig :
    (os : Os) (name : Bytes) (dir : Dir) (cfg : SegmentConfig)
    → IsSize cfg
    → StoreHas cfg (open_partition_store os name dir cfg).0
unfolding open_partition_store
open_partition_store-HasConfig os name dir cfg h =
    go (open_segment os (dir 0) 0 cfg).0 refl (open_segment-OpenedWith os (dir 0) 0 cfg h)
  where
    go :
        (o : Outcome StorageError Segment)
        → (open_segment os (dir 0) 0 cfg).0 ≡ o
        → OpenedWith cfg o
        → StoreHas cfg (open_partition_store os name dir cfg).0
    go (ok s) e x = simp (open_partition_store, e) (refl, x)
    go (err _) e x = simp (open_partition_store, e) tt
    go panic e x = simp (open_partition_store, e) tt

module _ (cfg : SegmentConfig) (size : IsSize cfg) where
  -- A store that is handed out, and the map with it, if it is.
  abbrev Obtains : Outcome StorageError PartitionStore × BrokerStore × Os → Type 0
  Obtains (r, bs, os) = StoreHas cfg r × IsConfigured cfg bs

  add_store-Obtains :
      (bs : BrokerStore) (key : Bytes) (r : Outcome StorageError PartitionStore) (os : Os)
      → StoreHas cfg r
      → IsConfigured cfg bs
      → Obtains (add_store bs key (r, os))
  unfolding add_store
  add_store-Obtains bs key (ok ps) os x c =
      (x, (c.0, put_store-HasConfig cfg key ps bs.stores x c.1))
  add_store-Obtains bs key (err _) os x c = (tt, c)
  add_store-Obtains bs key panic os x c = (tt, c)

  open_created-Obtains :
      (made : Option ℕ) (os : Os) (bs : BrokerStore) (key : Bytes)
      → IsConfigured cfg bs
      → Obtains (open_created made os bs key)
  unfolding open_created
  open_created-Obtains (some _) os bs key c = (tt, c)
  open_created-Obtains none os bs key c =
      let (r, os') = open_partition_store os key (bs.disk key) bs.cfg in
      add_store-Obtains bs key r os'
        (rw c.0 (open_partition_store-HasConfig os key (bs.disk key) cfg size)) c

  pub get_or_create_partition-Obtains :
      (os : Os) (bs : BrokerStore) (topic : Bytes) (partition : ℕ)
      → IsConfigured cfg bs
      → Obtains (get_or_create_partition os bs topic partition)
  unfolding get_or_create_partition obtain
  get_or_create_partition-Obtains os bs topic partition c =
      let key = partition_key topic partition in
      elim (Option-cases (find_store key bs.stores)) [
        | inl e ↦ rw e (open_created-Obtains (next os).0 (next os).1 bs key c)
        | inr (ps, e) ↦ rw e (find_store-HasConfig cfg key ps bs.stores c.1 e, c)
      ]

  abbrev Loads : Option StorageError × BrokerStore × Os → Type 0
  Loads (e, bs, os) = IsConfigured cfg bs

  loaded-Loads :
      (a : Outcome StorageError PartitionStore × BrokerStore × Os) → Obtains a → Loads (loaded a)
  unfolding loaded
  loaded-Loads (ok _, bs, os) x = x.1
  loaded-Loads (err _, bs, os) x = x.1
  loaded-Loads (panic, bs, os) x = x.1

  load_entry-Loads :
      (os : Os) (bs : BrokerStore) (e : DirEntry) → IsConfigured cfg bs → Loads (load_entry os bs e)
  unfolding load_entry
  load_entry-Loads os bs e c = elim (Option-cases e.content) [
    | inl file ↦ simp (load_entry, file) c
    | inr (dir, there) ↦ elim (Option-cases (parse_dir_name e.name)) [
      | inl other ↦ simp (load_entry, there, other) c
      | inr (tp, parsed) ↦
          let (r, os') = open_partition_store os e.name dir bs.cfg in
          simp (load_entry, there, parsed)
            (loaded-Loads (add_store bs (partition_key tp.topic tp.partition) (r, os')) (
              add_store-Obtains bs (partition_key tp.topic tp.partition) r os'
                (rw c.0 (open_partition_store-HasConfig os e.name dir cfg size)) c))
    ]
  ]

  -- The store that was opened, if it was.
  abbrev pub BrokerHas : Outcome StorageError BrokerStore → Type 0
  BrokerHas (ok bs) = IsConfigured cfg bs
  BrokerHas (err _) = Unit {0}
  BrokerHas panic = Unit {0}

  load_stores-BrokerHas :
      (entries : List DirEntry) (a : Option StorageError × BrokerStore × Os)
      → Loads a
      → BrokerHas (load_stores entries a).0
  unfolding load_stores
  load_stores-BrokerHas [] (some e, bs, os) c = tt
  load_stores-BrokerHas (x ∷ rest) (some e, bs, os) c = tt
  load_stores-BrokerHas [] (none, bs, os) c = c
  load_stores-BrokerHas (x ∷ rest) (none, bs, os) c =
      load_stores-BrokerHas rest (load_entry os bs x) (load_entry-Loads os bs x c)

  pub open_broker_store-BrokerHas :
      (os : Os) (disk : Bytes → Dir) (entries : List DirEntry)
      → BrokerHas (open_broker_store os disk entries cfg).0
  unfolding open_broker_store
  open_broker_store-BrokerHas os disk entries = elim (Option-cases (next os).0) [
    | inr (_, e) ↦ simp (open_broker_store, e) tt
    | inl e ↦
        let empty : BrokerStore = record { cfg = cfg; disk = disk; stores = [] } in
        simp (open_broker_store, e)
          (load_stores-BrokerHas entries (none, empty, (next os).1) (refl, tt))
  ]
