-- ===== src/Storage/Cleaner/Sweep.antt =====
-- The ticks of `runLogCleaner` in internal/storage/broker_store.go: a snapshot of the topics, and
-- for each of them a look at the map and the cleaning of its store. No lock is held from one to the
-- next, and none while a directory is cleaned.
pub mod Spared
use kage.Prelude.{ℕ, Option, none, some, List, [], ◌∷◌, Bytes, bytes_eq, ltb, if◌then◌else◌}
use kage.Storage.Store.{PartitionStore}
use kage.Storage.BrokerStore.{TopicPartition, BrokerStore, partition_key, find_store, topics}
use kage.Storage.Cleaner.{File, write_files, World, settle, clean_old_segments}

-- The directories of the partitions, by their names.
abbrev pub Folders : Type 0
Folders = Bytes → List File

unfoldable pub put_folder : Bytes → List File → Folders → Folders
put_folder name files folders d = if bytes_eq name d then files else folders d

-- What the rest of the process does around one round of the loop: what it has written to the
-- directories since the round before; the map and the time that the round finds; and the system
-- calls on the directory, with what is written to it between them. What is written to the other
-- directories meanwhile is counted with the round that follows.
pub record Moment : Type 0 where
  pub writes : Bytes → List File
  pub stores : List (Bytes × PartitionStore)
  pub now : ℕ
  pub world : World

unfoldable pub write_folders : Moment → Folders → Folders
write_folders m folders d = write_files (m.writes d) (folders d)

-- The rest of the body, with the store that was found under the key. A count or an error is only
-- logged.
unfoldable pub clean_found : ℕ → Moment → Option PartitionStore → Folders → Folders
clean_found retention m none folders = folders
clean_found retention m (some ps) folders =
    let (_, files, w) = clean_old_segments m.world m.now retention ps (folders ps.dir_name) in
    put_folder ps.dir_name (settle w files) folders

-- The body of the loop of one tick.
unfoldable pub clean_partition : ℕ → Moment → TopicPartition → Folders → Folders
clean_partition retention m tp folders =
    clean_found retention m (find_store (partition_key tp.topic tp.partition) m.stores)
      (write_folders m folders)

-- The rounds that there are moments for: where these end, the sweep has come no further.
unfoldable pub clean_partitions : ℕ → List Moment → List TopicPartition → Folders → Folders
clean_partitions retention ms [] folders = folders
clean_partitions retention [] (tp ∷ tps) folders = folders
clean_partitions retention (m ∷ ms) (tp ∷ tps) folders =
    clean_partitions retention ms tps (clean_partition retention m tp folders)

-- What the loop does on one tick of the timer, which finds the map as in `bs`.
unfoldable pub sweep : List Moment → BrokerStore → Folders → Folders
sweep ms bs folders = clean_partitions bs.cfg.retention ms (topics bs) folders

-- The cleaner is started for a retention above 0 alone; without it there is no tick.
unfoldable pub tick : List Moment → BrokerStore → Folders → Folders
tick ms bs folders = if ltb 0 bs.cfg.retention then sweep ms bs folders else folders
