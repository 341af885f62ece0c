-- ===== src/Server/Exchange.antt =====
-- What one client produces another one fetches: `handleProduce` and `handleFetch` of
-- internal/server/handler.go over the same broker store.
pub mod Isolation
use kage.Prelude.{
  ℕ, ◌+◌, ◌≤◌, ◌<◌, ◌≡◌, ◌≢◌, refl, sym, ap, ◌∙◌, true, false, Option, none, some, List, [], arith,
  Bytes, length,
}
use kage.Outcome.{Outcome, ok, err, panic}
use kage.Protocol.Error.{ProtocolError}
use kage.Protocol.Messages.Fetch.{FetchPartitionData, FetchPartitionResponse}
use kage.Protocol.Messages.Produce.{ProducePartitionData, ProducePartitionResponse}
use kage.Protocol.RecordBatch.{BatchError}
use kage.Server.Fetch.{fetch_from, fetched, fetch_obtained, fetch_partition}
use kage.Server.Fetch.Served.{answer, append-active, fetch_from-append}
use kage.Server.Patch.Batches.{IsWhole}
use kage.Server.Produce.{
  produced, produce_obtained, produce_checked, check_batch, produce_partition,
}
use kage.Server.Run.{Handler}
use kage.Storage.Error.{StorageError}
use kage.Storage.Bufio.{Os}
use kage.Storage.Segment.Log.{IsLog, IsRecord}
use kage.Storage.Store
use kage.Storage.Store.{PartitionStore, append_active}
use kage.Storage.Segment.Open.{is_open-append}
use kage.Storage.BrokerStore.{
  BrokerStore, partition_key, find_store, put_store, get_or_create_partition,
}
use kage.Storage.BrokerStore.Stores.{
  find_store-put_store, bytes_eq_refl, get_or_create_partition-found,
}

abbrev base_of : Outcome ProtocolError (ProducePartitionResponse × Handler × Os) → ℕ
base_of (ok (r, _, _)) = r.base_offset
base_of (err _) = 0
base_of panic = 0

abbrev code_of : Outcome ProtocolError (ProducePartitionResponse × Handler × Os) → ℕ
code_of (ok (r, _, _)) = r.error_code
code_of (err _) = 0
code_of panic = 0

abbrev stores_of :
    Outcome ProtocolError (ProducePartitionResponse × Handler × Os) → List (Bytes × PartitionStore)
stores_of (ok (_, h, _)) = h.store.stores
stores_of (err _) = []
stores_of panic = []

-- A response without an error code comes from an append that succeeded.
produced-ok :
    (key : Bytes) (partition : ℕ) (h : Handler) (bs : BrokerStore)
    (a : Outcome StorageError ℕ × PartitionStore × Os) (r : ProducePartitionResponse) (h' : Handler)
    (os' : Os)
    → produced key partition h bs a ≡ ok (r, h', os')
    → r.error_code ≡ 0
    → (a.0 ≡ ok r.base_offset) × (find_store key h'.store.stores ≡ some a.1)
unfolding produced
produced-ok key partition h bs (ok offset, ps, os) r h' os' e z = (
  ap (λ (n : ℕ). ok n) (ap base_of e),
  ap (λ t. find_store key t) (sym (ap stores_of e))
      ∙ rw (find_store-put_store key key ps bs.stores, bytes_eq_refl key),
)
produced-ok key partition h bs (err x, ps, os) r h' os' e z = absurd (ground arith)
produced-ok key partition h bs (panic, ps, os) r h' os' e z = absurd (ground arith)

-- What the response, without an error code, says of the store that was there.
abbrev pub Stored :
    Bytes → Bytes → PartitionStore → Os → ProducePartitionResponse → Handler → Type 0
Stored key batch ps os r h' =
    let a = Store.append os ps batch in
    (a.0 ≡ ok r.base_offset) × (find_store key h'.store.stores ≡ some a.1)

produce_checked-Stored :
    (c : Outcome BatchError ℕ) (topic : Bytes) (d : ProducePartitionData) (os : Os) (h : Handler)
    (ps : PartitionStore) (r : ProducePartitionResponse) (h' : Handler) (os' : Os)
    → find_store (partition_key topic d.partition) h.store.stores ≡ some ps
    → produce_checked topic d c os h ≡ ok (r, h', os')
    → r.error_code ≡ 0
    → Stored (partition_key topic d.partition) d.record_batch ps os r h'
unfolding produce_checked produce_obtained
produce_checked-Stored (ok _) topic d os h ps r h' os' found e z =
    produced-ok (partition_key topic d.partition) d.partition h h.store
      (Store.append os ps d.record_batch) r h' os'
      (rw (get_or_create_partition-found os h.store topic d.partition ps found) at e) z
produce_checked-Stored (err _) topic d os h ps r h' os' found e z =
    let code : 2 ≡ 0 = ap code_of e ∙ z in absurd (omega (arith, code))
produce_checked-Stored panic topic d os h ps r h' os' found e z = absurd (ground arith)

-- The batch was accepted and appended to the store of its partition.
produce_partition-Stored :
    (topic : Bytes) (d : ProducePartitionData) (os : Os) (h : Handler) (ps : PartitionStore)
    (r : ProducePartitionResponse) (h' : Handler) (os' : Os)
    → find_store (partition_key topic d.partition) h.store.stores ≡ some ps
    → produce_partition topic d os h ≡ ok (r, h', os')
    → r.error_code ≡ 0
    → Stored (partition_key topic d.partition) d.record_batch ps os r h'
unfolding produce_partition
produce_partition-Stored topic d = produce_checked-Stored (check_batch d.record_batch) topic d

-- The response of a fetch, with what is left of the budget.
abbrev pub response :
    Outcome ProtocolError ((FetchPartitionResponse × ℕ) × Handler × Os)
    → Option (FetchPartitionResponse × ℕ)
response (ok (a, _, _)) = some a
response (err _) = none
response panic = none

fetched-response :
    (key : Bytes) (h : Handler) (bs : BrokerStore)
    (a : Outcome ProtocolError (FetchPartitionResponse × ℕ) × PartitionStore × Os)
    (x : FetchPartitionResponse × ℕ)
    → a.0 ≡ ok x
    → response (fetched key h bs a) ≡ some x
unfolding fetched
fetched-response key h bs (ok y, ps, os) x e =
    let same : y ≡ x = ground arith in ap (λ t. some t) same
fetched-response key h bs (err y, ps, os) x e = absurd cc
fetched-response key h bs (panic, ps, os) x e = absurd cc

-- A fetch goes to the store that is there.
pub fetch_partition-found :
    (topic : Bytes) (remaining : ℕ) (f : FetchPartitionData) (os : Os) (h : Handler)
    (ps : PartitionStore) (x : FetchPartitionResponse × ℕ)
    → find_store (partition_key topic f.partition) h.store.stores ≡ some ps
    → (fetch_from remaining f os ps).0 ≡ ok x
    → response (fetch_partition topic remaining f os h) ≡ some x
unfolding fetch_partition fetch_obtained
fetch_partition-found topic remaining f os h ps x found e =
    rw (get_or_create_partition-found os h.store topic f.partition ps found) (
      fetched-response (partition_key topic f.partition) h h.store (fetch_from remaining f os ps) x
        e)

-- What one client produces another one fetches. Suppose that the active segment of the partition's
-- store is open, holds a log and has room for the record of a whole batch of fewer than 2 ^ 32
-- bytes. If the response to a Produce request of that batch, whatever the system calls did, carries
-- no error code, then a Fetch request at the base offset of that response, to that partition, is
-- answered from the new state with that batch, its base offset rewritten, if its budget and its
-- maximum hold the batch and are below 0x7ffffffc; the system calls of the fetch succeed.
pub fetch_partition-produce_partition :
    (topic : Bytes) (d : ProducePartitionData) (os os' : Os) (h h' : Handler) (ps : PartitionStore)
    (rs : List Bytes) (r : ProducePartitionResponse) (f : FetchPartitionData) (remaining : ℕ)
    → find_store (partition_key topic d.partition) h.store.stores ≡ some ps
    → IsLog ps.active rs
    → ps.active.bw.is_open ≡ true
    → IsRecord d.record_batch
    → IsWhole d.record_batch
    → ps.active.size + (4 + length d.record_batch) ≤ ps.active.max_size
    → produce_partition topic d os h ≡ ok (r, h', os')
    → r.error_code ≡ 0
    → f.partition ≡ d.partition
    → f.fetch_offset ≡ r.base_offset
    → length d.record_batch ≤ remaining
    → remaining < 0x7fff_fffc
    → length d.record_batch ≤ f.partition_max_bytes
    → f.partition_max_bytes < 0x7fff_fffc
    → response (fetch_partition topic remaining f [] h')
      ≡ some (answer f (Store.size (Store.append os ps d.record_batch).1) d.record_batch remaining)
unfolding append_active
fetch_partition-produce_partition topic d os os' h h' ps rs r f remaining found log is_open fits
      whole room e z same here a b c k =
    let p = d.record_batch in
    let (done, found') = produce_partition-Stored topic d os h ps r h' os' found e z in
    let still_open : (Store.append os ps p).1.active.bw.is_open ≡ true =
      rw (append-active os ps rs p log fits room) (is_open-append os ps.active p ∙ is_open) in
    fetch_partition-found topic remaining f [] h' (Store.append os ps p).1
      (answer f (Store.size (Store.append os ps p).1) p remaining)
      (ap (λ (n : ℕ). find_store (partition_key topic n) h'.store.stores) same ∙ found')
      (fetch_from-append os ps rs p remaining f log fits whole room
        (done ∙ ap (λ (n : ℕ). ok n) (sym here)) still_open a b c k)
