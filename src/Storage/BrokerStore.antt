-- ===== src/Storage/BrokerStore.antt =====
-- internal/storage/broker_store.go: a partition store for each topic and partition. The lock makes
-- each method one step.
pub mod Names
pub mod Stores
use kage.Prelude.{
  ℕ, ◌<◌, Bool, true, false, not, ◌&&◌, Option, none, some, List, [], ◌∷◌, ◌++◌, Bytes, bytes_eq,
  leb, ltb, ◌==◌, if◌then◌else◌,
}
use kage.Decimal.{format_int32, is_digit, parse_digits}
use kage.Outcome.{Outcome, ok, err, panic}
use kage.Storage.Error.{StorageError, io}
use kage.Storage.Bufio.{Os, next}
use kage.Storage.Segment.{SegmentConfig}
use kage.Storage.Store.{PartitionStore, Dir, open_partition_store, close_store}

pub record TopicPartition : Type 0 where
  pub topic : Bytes
  pub partition : ℕ

-- fmt.Sprintf("%s-%d", topic, partition)
unfoldable pub partition_key : Bytes → ℕ → Bytes
partition_key topic partition = topic ++ (b'-' ∷ format_int32 partition)

abbrev pub all_digits : Bytes → Bool
all_digits [] = true
all_digits (c ∷ cs) = is_digit c && all_digits cs

-- The parts of `^(.*)-(\d+)$`: the last hyphen divides them, and `.` is not a line feed.
unfoldable pub match_dir : Bytes → Option (Bytes × Bytes)
match_dir [] = none
match_dir (c ∷ cs) = elim (match_dir cs) [
  | some (topic, number) ↦ if c == b'\n' then none else some (c ∷ topic, number)
  | none ↦ if (c == b'-') && (all_digits cs && not (bytes_eq cs [])) then some ([], cs) else none
]

-- The range check of strconv.ParseInt(number, 10, 32); the number has no sign.
unfoldable pub in_range : Bytes → Option ℕ → Option TopicPartition
in_range topic none = none
in_range topic (some n) =
    if ltb n 0x8000_0000 then some (record { topic = topic; partition = n }) else none

unfoldable pub parse_match : Option (Bytes × Bytes) → Option TopicPartition
parse_match none = none
parse_match (some ([], number)) = none
parse_match (some (c ∷ topic, number)) = in_range (c ∷ topic) (parse_digits number)

-- `partitionDirRe`, whose first part is not empty, and the number behind it.
unfoldable pub parse_dir_name : Bytes → Option TopicPartition
parse_dir_name name = parse_match (match_dir name)

-- What is found in the root directory: the name, and the content if it is a directory.
pub record DirEntry : Type 0 where
  pub name : Bytes
  pub content : Option Dir

-- The map of stores is an association list; `disk` is what a directory holds that is not open,
-- and a directory that is not there is empty. Names stand for the directories they name: those that
-- `filepath.Join` would resolve further (with a slash in them) are outside the model.
pub record BrokerStore : Type 0 where
  pub cfg : SegmentConfig
  pub disk : Bytes → Dir
  pub stores : List (Bytes × PartitionStore)

unfoldable pub find_store : Bytes → List (Bytes × PartitionStore) → Option PartitionStore
find_store key [] = none
find_store key ((k, ps) ∷ rest) = if bytes_eq k key then some ps else find_store key rest

-- bs.stores[key] = ps, which also stands for a change to the store that is there.
unfoldable pub put_store :
    Bytes → PartitionStore → List (Bytes × PartitionStore) → List (Bytes × PartitionStore)
put_store key ps [] = (key, ps) ∷ []
put_store key ps ((k, old) ∷ rest) =
    if bytes_eq k key then (k, ps) ∷ rest else (k, old) ∷ put_store key ps rest

-- The store that has been opened goes into the map.
unfoldable pub add_store :
    BrokerStore
    → Bytes
    → Outcome StorageError PartitionStore × Os
    → Outcome StorageError PartitionStore × BrokerStore × Os
add_store bs key (ok ps, os) = (ok ps, record bs { stores = put_store key ps bs.stores }, os)
add_store bs key (err e, os) = (err e, bs, os)
add_store bs key (panic, os) = (panic, bs, os)

-- The rest of the slow path, once making the directory has ended as the first argument says.
unfoldable pub open_created :
    Option ℕ → Os → BrokerStore → Bytes → Outcome StorageError PartitionStore × BrokerStore × Os
open_created (some _) os bs key = (err io, bs, os)
open_created none os bs key = add_store bs key (open_partition_store os key (bs.disk key) bs.cfg)

-- The two paths of `GetOrCreatePartition`; the second look at the map, under the write lock, sees
-- what the first saw.
unfoldable pub obtain :
    Option PartitionStore
    → Os
    → BrokerStore
    → Bytes
    → Outcome StorageError PartitionStore × BrokerStore × Os
obtain (some ps) os bs key = (ok ps, bs, os)
obtain none os bs key = let (made, os') = next os in open_created made os' bs key

unfoldable pub get_or_create_partition :
    Os → BrokerStore → Bytes → ℕ → Outcome StorageError PartitionStore × BrokerStore × Os
get_or_create_partition os bs topic partition =
    let key = partition_key topic partition in obtain (find_store key bs.stores) os bs key

-- A nil error, or the error, of opening one store.
unfoldable pub loaded :
    Outcome StorageError PartitionStore × BrokerStore × Os → Option StorageError × BrokerStore × Os
loaded (ok _, bs, os) = (none, bs, os)
loaded (err e, bs, os) = (some e, bs, os)
loaded (panic, bs, os) = (some io, bs, os)

-- One entry of the scan in `OpenBrokerStore`. What is no directory is passed over, and so is a
-- directory whose name does not parse.
unfoldable pub load_entry : Os → BrokerStore → DirEntry → Option StorageError × BrokerStore × Os
load_entry os bs e = elim e.content [
  | none ↦ (none, bs, os)
  | some dir ↦ elim (parse_dir_name e.name) [
    | none ↦ (none, bs, os)
    | some tp ↦ loaded (
        add_store bs (partition_key tp.topic tp.partition)
          (open_partition_store os e.name dir bs.cfg))
  ]
]

-- The loop, which ends with the first error.
unfoldable pub load_stores :
    List DirEntry → Option StorageError × BrokerStore × Os → Outcome StorageError BrokerStore × Os
load_stores rest (some e, bs, os) = (err e, os)
load_stores [] (none, bs, os) = (ok bs, os)
load_stores (e ∷ rest) (none, bs, os) = load_stores rest (load_entry os bs e)

-- `OpenBrokerStore` over what the root directory holds; reading it is a system call.
unfoldable pub open_broker_store :
    Os → (Bytes → Dir) → List DirEntry → SegmentConfig → Outcome StorageError BrokerStore × Os
open_broker_store os disk entries cfg =
    let (scanned, os') = next os in
    elim scanned [
      | some _ ↦ (err io, os')
      | none ↦ load_stores entries (none, record { cfg = cfg; disk = disk; stores = [] }, os')
    ]

-- `Topics`, in the order of the map's list; a store whose directory's name does not parse is left
-- out.
unfoldable pub topics_of : List (Bytes × PartitionStore) → List TopicPartition
topics_of [] = []
topics_of ((_, ps) ∷ rest) = elim (parse_dir_name ps.dir_name) [
  | none ↦ topics_of rest
  | some tp ↦ tp ∷ topics_of rest
]

unfoldable pub topics : BrokerStore → List TopicPartition
topics bs = topics_of bs.stores

-- `Close`: every store is closed, whatever the closing of another one returned.
unfoldable pub close_stores :
    Os → List (Bytes × PartitionStore) → Bool × List (Bytes × PartitionStore) × Os
close_stores os [] = (true, [], os)
close_stores os ((key, ps) ∷ rest) =
    let (done, ps', os1) = close_store os ps in
    let (rest_done, rest', os2) = close_stores os1 rest in
    (done && rest_done, (key, ps') ∷ rest', os2)

unfoldable pub close_broker_store : Os → BrokerStore → Bool × BrokerStore × Os
close_broker_store os bs =
    let (done, stores', os') = close_stores os bs.stores in
    (done, record bs { stores = stores' }, os')
