-- ===== src/Server/Exchange/Isolation.antt =====
-- The stores that a Produce request leaves alone.
use kage.Prelude.{ℕ, ◌≡◌, refl, ◌∙◌, false, List, [], ◌∷◌, Bytes, bytes_eq, All}
use kage.Outcome.{Outcome, ok, err, panic}
use kage.Protocol.Error.{ProtocolError}
use kage.Protocol.Decoder.{Stream}
use kage.Protocol.Messages.Header.{RequestHeader}
use kage.Protocol.Messages.Produce.{
  ProducePartitionData, ProduceTopicData, ProduceRequest, parse_produce_request,
}
use kage.Protocol.RecordBatch.{BatchError}
use kage.Server.Produce.{
  produced, produce_obtained, produce_checked, check_batch, produce_partition, produce_topic,
  handle_produce,
}
use kage.Server.Run.{Handler, Run, ◌>>=◌, parsed, each}
use kage.Storage.Error.{StorageError}
use kage.Storage.Bufio.{Os}
use kage.Storage.Store
use kage.Storage.Store.{PartitionStore}
use kage.Storage.BrokerStore.{BrokerStore, partition_key, find_store, get_or_create_partition}
use kage.Storage.BrokerStore.Stores.{
  find_store-put_store, Obtained, get_or_create_partition-Obtained,
}

-- If a run returns, the store of the key is the one that was there.
abbrev pub Kept : {A : Type 0} → Bytes → Handler → Outcome ProtocolError (A × Handler × Os) → Type 0
Kept k h (ok (_, h', _)) = find_store k h'.store.stores ≡ find_store k h.store.stores
Kept k h (err _) = Unit {0}
Kept k h panic = Unit {0}

abbrev pub Keeps : {A : Type 0} → Bytes → Run A → Type 0
Keeps k m = (os : Os) (h : Handler) → Kept k h (m os h)

module _ (k : Bytes) where
  Kept-trans :
      {A : Type 0} (h h' : Handler) (o : Outcome ProtocolError (A × Handler × Os))
      → find_store k h'.store.stores ≡ find_store k h.store.stores
      → Kept k h' o
      → Kept k h o
  Kept-trans h h' (ok _) e x = x ∙ e
  Kept-trans h h' (err _) e x = tt
  Kept-trans h h' panic e x = tt

  bind-Kept :
      {A B : Type 0} (o : Outcome ProtocolError (A × Handler × Os)) (f : A → Run B) (h : Handler)
      → Kept k h o
      → ((a : A) → Keeps k (f a))
      → Kept k h (((λ os h'. o) >>= f) [] h)
  bind-Kept (ok (a, h', os)) f h x g = Kept-trans h h' (f a os h') x (g a os h')
  bind-Kept (err _) f h x g = tt
  bind-Kept panic f h x g = tt

  pub >>=-Keeps :
      {A B : Type 0} (m : Run A) (f : A → Run B)
      → Keeps k m
      → ((a : A) → Keeps k (f a))
      → Keeps k (m >>= f)
  >>=-Keeps m f x g os h = bind-Kept (m os h) f h (x os h) g

  each-Keeps :
      {A B : Type 0} {P : A → Type 0} (body : A → Run B) (xs : List A)
      → ((x : A) → P x → Keeps k (body x))
      → All P xs
      → Keeps k (each body xs)
  unfolding each
  each-Keeps body [] g a = λ os h. refl
  each-Keeps body (x ∷ xs) g a =
      >>=-Keeps (body x) _ (g x a.0)
        (λ y. >>=-Keeps (each body xs) _ (each-Keeps body xs g a.1) (λ ys os h. refl))

  parsed-Keeps : {A : Type 0} (o : Outcome ProtocolError A) → Keeps k (parsed o)
  parsed-Keeps (ok _) os h = refl
  parsed-Keeps (err _) os h = tt
  parsed-Keeps panic os h = tt

  -- A store under another key goes back into the map.
  produced-Kept :
      (key : Bytes) (partition : ℕ) (h : Handler) (bs : BrokerStore)
      (a : Outcome StorageError ℕ × PartitionStore × Os)
      → bytes_eq key k ≡ false
      → find_store k bs.stores ≡ find_store k h.store.stores
      → Kept k h (produced key partition h bs a)
  unfolding produced
  produced-Kept key partition h bs (ok _, ps, os) n e =
      rw (find_store-put_store key k ps bs.stores, n) e
  produced-Kept key partition h bs (err _, ps, os) n e =
      rw (find_store-put_store key k ps bs.stores, n) e
  produced-Kept key partition h bs (panic, ps, os) n e = tt

  produce_obtained-Kept :
      (topic : Bytes) (d : ProducePartitionData) (h : Handler)
      (r : Outcome StorageError PartitionStore) (bs : BrokerStore) (os : Os)
      → bytes_eq (partition_key topic d.partition) k ≡ false
      → Obtained (partition_key topic d.partition) h.store r bs
      → Kept k h (produce_obtained topic d h (r, bs, os))
  unfolding produce_obtained
  produce_obtained-Kept topic d h (ok ps) bs os n x =
      produced-Kept (partition_key topic d.partition) d.partition h bs
        (Store.append os ps d.record_batch) n (x.1 k n)
  produce_obtained-Kept topic d h (err _) bs os n x = rw x
  produce_obtained-Kept topic d h panic bs os n x = tt

  produce_checked-Keeps :
      (topic : Bytes) (d : ProducePartitionData) (c : Outcome BatchError ℕ)
      → bytes_eq (partition_key topic d.partition) k ≡ false
      → Keeps k (produce_checked topic d c)
  unfolding produce_checked
  produce_checked-Keeps topic d (ok _) n os h =
      let (r, bs, os') = get_or_create_partition os h.store topic d.partition in
      produce_obtained-Kept topic d h r bs os' n
        (get_or_create_partition-Obtained os h.store topic d.partition)
  produce_checked-Keeps topic d (err _) n os h = refl
  produce_checked-Keeps topic d panic n os h = tt

  pub produce_partition-Keeps :
      (topic : Bytes) (d : ProducePartitionData)
      → bytes_eq (partition_key topic d.partition) k ≡ false
      → Keeps k (produce_partition topic d)
  unfolding produce_partition
  produce_partition-Keeps topic d n = produce_checked-Keeps topic d (check_batch d.record_batch) n

-- The request names no partition whose store has this key.
abbrev pub NotNamed : Bytes → ProduceTopicData → Type 0
NotNamed k t =
    All (λ (d : ProducePartitionData). bytes_eq (partition_key t.topic_name d.partition) k ≡ false)
      t.partitions

module _ (k : Bytes) where
  produce_topic-Keeps : (t : ProduceTopicData) → NotNamed k t → Keeps k (produce_topic t)
  unfolding produce_topic
  produce_topic-Keeps t n =
      >>=-Keeps k (each (produce_partition t.topic_name) t.partitions) _
        (each-Keeps k (produce_partition t.topic_name) t.partitions
          (λ d. produce_partition-Keeps k t.topic_name d) n)
        (λ ps os h. refl)

-- A Produce request that can be read, with whatever its system calls do, leaves the store under
-- every key that is the key of none of the partitions it names as it was, if it comes to a
-- response. The keys are the names of the directories, of which two partitions can share one.
pub handle_produce-Keeps :
    (header : RequestHeader) (s s' : Stream) (req : ProduceRequest) (k : Bytes)
    → parse_produce_request header s ≡ ok (req, s')
    → All (NotNamed k) req.topics
    → (os : Os) (h : Handler) → Kept k h (handle_produce header s os h)
unfolding handle_produce
handle_produce-Keeps header s s' req k e n os h = rw e (
    >>=-Keeps k (each produce_topic req.topics) _
      (each-Keeps k produce_topic req.topics (λ t. produce_topic-Keeps k t) n) (λ ts os h. refl) os
      h)
