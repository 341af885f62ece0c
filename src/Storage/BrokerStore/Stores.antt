-- ===== src/Storage/BrokerStore/Stores.antt =====
-- The map of stores, and `GetOrCreatePartition` as its only way in.
use kage.Prelude.{
  ℕ, ◌≡◌, refl, true, false, Option-cases, inl, inr, Option, none, some, List, [], ◌∷◌, arith,
  Bytes, bytes_eq, bytes_eq_iff, if◌then◌else◌,
}
use kage.Outcome.{Outcome, ok, err, panic}
use kage.Storage.Error.{StorageError}
use kage.Storage.Bufio.{Os, next}
use kage.Storage.Store.{PartitionStore, open_partition_store}
use kage.Storage.BrokerStore.{
  BrokerStore, partition_key, find_store, put_store, add_store, open_created, obtain,
  get_or_create_partition,
}

pub bytes_eq_refl : (a : Bytes) → bytes_eq a a ≡ true
bytes_eq_refl a = (bytes_eq_iff a a).1 refl

-- The law of the map.
pub find_store-put_store :
    (key k : Bytes) (ps : PartitionStore) (stores : List (Bytes × PartitionStore))
    → find_store k (put_store key ps stores)
      ≡ (if bytes_eq key k then some ps else find_store k stores)
unfolding find_store put_store
find_store-put_store key k ps [] = refl
find_store-put_store key k ps ((j, old) ∷ rest) = ground (
  arith,
  bytes_eq_iff j key,
  bytes_eq_iff key k,
  bytes_eq_iff j k,
  bytes_eq_refl k,
  find_store-put_store key k ps rest,
)

-- A store that is there is handed out, and nothing changes.
pub get_or_create_partition-found :
    (os : Os) (bs : BrokerStore) (topic : Bytes) (partition : ℕ) (ps : PartitionStore)
    → find_store (partition_key topic partition) bs.stores ≡ some ps
    → get_or_create_partition os bs topic partition ≡ (ok ps, bs, os)
unfolding get_or_create_partition obtain
get_or_create_partition-found os bs topic partition ps e = rw e

-- The stores `b` are the stores `a` but perhaps for the one of `key`.
abbrev pub SameBut : Bytes → BrokerStore → BrokerStore → Type 0
SameBut key a b =
    (k : Bytes) → bytes_eq key k ≡ false → find_store k b.stores ≡ find_store k a.stores

-- What `GetOrCreatePartition` may end in.
abbrev pub Obtained :
    Bytes → BrokerStore → Outcome StorageError PartitionStore → BrokerStore → Type 0
Obtained key bs (ok ps) bs' = (find_store key bs'.stores ≡ some ps) × SameBut key bs bs'
Obtained key bs (err e) bs' = bs' ≡ bs
Obtained key bs panic bs' = bs' ≡ bs

add_store-Obtained :
    (bs : BrokerStore) (key : Bytes) (r : Outcome StorageError PartitionStore) (os : Os)
    → let a = add_store bs key (r, os) in Obtained key bs a.0 a.1
unfolding add_store
add_store-Obtained bs key (ok ps) os = (
  rw (find_store-put_store key key ps bs.stores, bytes_eq_refl key),
  λ k different. rw (find_store-put_store key k ps bs.stores, different),
)
add_store-Obtained bs key (err e) os = refl
add_store-Obtained bs key panic os = refl

open_created-Obtained :
    (made : Option ℕ) (os : Os) (bs : BrokerStore) (key : Bytes)
    → let a = open_created made os bs key in Obtained key bs a.0 a.1
unfolding open_created
open_created-Obtained (some _) os bs key = refl
open_created-Obtained none os bs key =
    let (r, os') = open_partition_store os key (bs.disk key) bs.cfg in
    add_store-Obtained bs key r os'

-- However the system calls go, `GetOrCreatePartition` either returns the store that the map then
-- holds for that partition, every other partition keeping its store, or returns an error and leaves
-- the map as it was.
pub get_or_create_partition-Obtained :
    (os : Os) (bs : BrokerStore) (topic : Bytes) (partition : ℕ)
    → let a = get_or_create_partition os bs topic partition in
      Obtained (partition_key topic partition) bs a.0 a.1
unfolding get_or_create_partition obtain
get_or_create_partition-Obtained os bs topic partition =
    let key = partition_key topic partition in
    elim (Option-cases (find_store key bs.stores)) [
      | inl e ↦ rw e (open_created-Obtained (next os).0 (next os).1 bs key)
      | inr (ps, e) ↦ rw e (e, λ k different. refl)
    ]
