-- ===== src/Storage/Cleaner/Sweep/Spared.antt =====
-- What a tick of the cleaner leaves alone.
use kage.Prelude.{
  ltb, ℕ, ◌≡◌, refl, sym, ◌∙◌, Bool-cases, inl, inr, Option, none, some, List, [], ◌∷◌, Bytes,
  bytes_eq, bytes_eq_iff, if◌then◌else◌,
}
use kage.Storage.Store.{PartitionStore}
use kage.Storage.BrokerStore.{TopicPartition, BrokerStore, partition_key, find_store, topics}
use kage.Storage.Cleaner.{files_at, log_name, index_name, settle}
use kage.Storage.Cleaner.Entries.{write_files-SameAt, settle-SameAt}
use kage.Storage.Cleaner.Kept.{SameFiles, files_at-SameFiles, clean_old_segments-SameFiles}
use kage.Storage.Cleaner.Sweep.{
  Folders, put_folder, Moment, write_folders, clean_found, clean_partition, clean_partitions, sweep,
  tick,
}

-- The directories after the same rounds in which the cleaner only looks: all that is written to
-- them is what the rest of the process writes.
abbrev pub look_found : Moment → Option PartitionStore → Folders → Folders
look_found m none folders = folders
look_found m (some ps) folders =
    put_folder ps.dir_name (settle m.world (folders ps.dir_name)) folders

abbrev pub look : List Moment → List TopicPartition → Folders → Folders
look ms [] folders = folders
look [] (tp ∷ tps) folders = folders
look (m ∷ ms) (tp ∷ tps) folders = look ms tps (
    look_found m (find_store (partition_key tp.topic tp.partition) m.stores)
      (write_folders m folders))

abbrev pub look_tick : List Moment → BrokerStore → Folders → Folders
look_tick ms bs folders = if ltb 0 bs.cfg.retention then look ms (topics bs) folders else folders

-- Each round that finds a store which works in the directory `d` finds it with the active segment
-- `base`.
abbrev pub IsActive : Bytes → ℕ → List Moment → List TopicPartition → Type 0
IsActive d base ms [] = Unit {0}
IsActive d base [] (tp ∷ tps) = Unit {0}
IsActive d base (m ∷ ms) (tp ∷ tps) =
    ((ps : PartitionStore)
      → find_store (partition_key tp.topic tp.partition) m.stores ≡ some ps
      → ps.dir_name ≡ d
      → ps.active.base_offset ≡ base)
    × IsActive d base ms tps

module _ (d : Bytes) (base retention : ℕ) where
  clean_found-SameFiles :
      (m : Moment) (found : Option PartitionStore) (a b : Folders)
      → ((ps : PartitionStore) → found ≡ some ps → ps.dir_name ≡ d → ps.active.base_offset ≡ base)
      → SameFiles base (a d) (b d)
      → SameFiles base (clean_found retention m found a d) (look_found m found b d)
  unfolding clean_found put_folder
  clean_found-SameFiles m none a b h s = s
  clean_found-SameFiles m (some ps) a b h s = elim (Bool-cases (bytes_eq ps.dir_name d)) [
    | inr other ↦ rw other s
    | inl same ↦
        let e : ps.dir_name ≡ d = (bytes_eq_iff ps.dir_name d).0 same in
        let active : base ≡ ps.active.base_offset = sym (h ps refl e) in
        let (log, index) =
          clean_old_segments-SameFiles m.world m.now retention ps (a d) base (inl active) in
        simp same (
          simp e (
            log ∙ settle-SameAt (log_name base) m.world (a d) (b d) s.0,
            index ∙ settle-SameAt (index_name base) m.world (a d) (b d) s.1,
          ))
  ]

  clean_partitions-SameFiles :
      (ms : List Moment) (tps : List TopicPartition) (a b : Folders)
      → IsActive d base ms tps
      → SameFiles base (a d) (b d)
      → SameFiles base (clean_partitions retention ms tps a d) (look ms tps b d)
  unfolding clean_partitions clean_partition write_folders
  clean_partitions-SameFiles ms [] a b h s = s
  clean_partitions-SameFiles [] (tp ∷ tps) a b h s = s
  clean_partitions-SameFiles (m ∷ ms) (tp ∷ tps) a b h s =
      let key = partition_key tp.topic tp.partition in
      clean_partitions-SameFiles ms tps (clean_partition retention m tp a)
        (look_found m (find_store key m.stores) (write_folders m b)) h.1
        (clean_found-SameFiles m (find_store key m.stores) (write_folders m a) (write_folders m b)
          h.0
          (
            write_files-SameAt (log_name base) (m.writes d) (a d) (b d) s.0,
            write_files-SameAt (index_name base) (m.writes d) (a d) (b d) s.1,
          ))

-- However the system calls go, and whatever the rest of the process writes between the rounds and
-- the calls of a tick of the cleaner: if each round that cleans a directory finds the store there
-- with its active segment at one base offset, the files of that segment are in the end what they
-- are when the cleaner only looks and removes nothing. A directory that no round cleans keeps the
-- files of every base offset in this way.
pub tick-kept :
    (ms : List Moment) (bs : BrokerStore) (folders : Folders) (d : Bytes) (base : ℕ)
    → IsActive d base ms (topics bs)
    → files_at (tick ms bs folders d) base ≡ files_at (look_tick ms bs folders d) base
unfolding tick sweep
tick-kept ms bs folders d base h = elim (Bool-cases (ltb 0 bs.cfg.retention)) [
  | inl started ↦ rw started (
      files_at-SameFiles base (clean_partitions bs.cfg.retention ms (topics bs) folders d)
        (look ms (topics bs) folders d)
        (clean_partitions-SameFiles d base bs.cfg.retention ms (topics bs) folders folders h
          (refl, refl)))
  | inr idle ↦ rw idle
]
