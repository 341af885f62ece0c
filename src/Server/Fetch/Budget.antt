-- ===== src/Server/Fetch/Budget.antt =====
-- What a Fetch response holds in all, whatever the stores hold.
use kage.Prelude.{
  ℕ, ◌+◌, ◌≤◌, ◌<◌, ◌≡◌, refl, inl, inr, Bool-cases, Option, none, some, List, [], ◌∷◌, arith,
  Bytes, length, length-drop, drop, ltb, slt32, slt64, is_neg32, add32, ◌||◌, ◌==◌, if◌then◌else◌,
}
use kage.Outcome.{Outcome, ok, err, panic}
use kage.Protocol.Error.{ProtocolError}
use kage.Protocol.Messages.Fetch.{
  FetchPartitionData, FetchTopicData, FetchPartitionResponse, FetchTopicResponse,
}
use kage.Server.Fetch.{
  serve_raw, serve_read, fetch_from, fetched, fetch_obtained, fetch_partition, fetch_partitions,
  fetch_topics,
}
use kage.Server.Patch.Size.{length-patch_batches}
use kage.Server.Run.{Handler, Run, ◌>>=◌, pure}
use kage.Storage.Error.{StorageError}
use kage.Storage.Bufio.{Os}
use kage.Storage.Segment.{Section, read_section}
use kage.Storage.Store
use kage.Storage.Store.{PartitionStore, cap_bytes, served}
use kage.Storage.Store.Bound.{AtMost, Delivers, read-Delivers}
use kage.Storage.BrokerStore.{BrokerStore, partition_key, get_or_create_partition}

-- The bytes of the batch in a response, and of all batches in a topic's and in all topics'.
unfoldable pub held : FetchPartitionResponse → ℕ
held r = elim r.record_batch [ none ↦ 0 | some payload ↦ length payload ]

unfoldable pub held_partitions : List FetchPartitionResponse → ℕ
held_partitions [] = 0
held_partitions (r ∷ rs) = held r + held_partitions rs

unfoldable pub held_topics : List FetchTopicResponse → ℕ
held_topics [] = 0
held_topics (t ∷ ts) = held_partitions t.partitions + held_topics ts

-- What is held and what remains of the budget are the budget `m`.
abbrev pub Spends :
    {R : Type 0} → (R → ℕ) → ℕ → Outcome ProtocolError ((R × ℕ) × Handler × Os) → Type 0
Spends w m (ok ((r, left), h, os)) = w r + left ≡ m
Spends w m (err e) = Unit {0}
Spends w m panic = Unit {0}

-- The batch and what remains of the budget are the budget `m`.
abbrev Spent : ℕ → Outcome ProtocolError (FetchPartitionResponse × ℕ) → Type 0
Spent m (ok (r, left)) = held r + left ≡ m
Spent m (err e) = Unit {0}
Spent m panic = Unit {0}

module _ (m : ℕ) (positive : m < 0x8000_0000) (part : FetchPartitionData) where
  serve_raw-Spent :
      (c size : ℕ) (o : Option Bytes)
      → c ≤ m
      → AtMost (c + 4) o
      → Spent m (ok (serve_raw m part size o))
  unfolding serve_raw held
  serve_raw-Spent c size none b a = omega arith
  serve_raw-Spent c size (some raw) b a = elim (Bool-cases (ltb (length raw) 4)) [
    | inl short ↦ simp short (omega arith)
    | inr long ↦
        let same = length-patch_batches part.fetch_offset (drop 4 raw) in
        let size' = length-drop 4 raw in simp long (ground arith)
  ]

  serve_read-Spent :
      (c size : ℕ) (r : Outcome StorageError (Section × ℕ) × PartitionStore × Os)
      → c ≤ m
      → Delivers (c + 4) r
      → Spent m (serve_read m part size r).0
  unfolding serve_read held
  serve_read-Spent c size (ok (section, n), ps, os) b d =
      serve_raw-Spent c size ((read_section os ps.active section n).0) b d
  serve_read-Spent c size (err e, ps, os) b d = omega arith
  serve_read-Spent c size (panic, ps, os) b d = tt

  fetch_from-Spent : (os : Os) (ps : PartitionStore) → Spent m (fetch_from m part os ps).0
  unfolding fetch_from Store.size held
  fetch_from-Spent os ps =
      let size = Store.size ps in
      let cap = if slt32 m part.partition_max_bytes then m else part.partition_max_bytes in
      elim (Bool-cases (part.fetch_offset == size)) [
        | inl a ↦ simp a (omega arith)
        | inr a ↦ elim (Bool-cases (slt64 size part.fetch_offset)) [
          | inl b ↦ simp (a, b) (omega arith)
          | inr b ↦ elim (Bool-cases (is_neg32 cap || cap == 0)) [
            | inl c ↦ simp (a, b, c) (omega arith)
            | inr c ↦
                simp (a, b, c)
                  (serve_read-Spent cap size (Store.read os ps part.fetch_offset (add32 cap 4))
                    (ground arith)
                    (read-Delivers os ps part.fetch_offset cap (ground arith) (ground arith)))
          ]
        ]
      ]

  fetched-Spends :
      (key : Bytes) (h : Handler) (bs : BrokerStore)
      (r : Outcome ProtocolError (FetchPartitionResponse × ℕ) × PartitionStore × Os)
      → Spent m (r.0)
      → Spends held m (fetched key h bs r)
  unfolding fetched
  fetched-Spends key h bs (ok (r, left), ps, os) k = k
  fetched-Spends key h bs (err e, ps, os) k = tt
  fetched-Spends key h bs (panic, ps, os) k = tt

  fetch_obtained-Spends :
      (topic : Bytes) (h : Handler) (r : Outcome StorageError PartitionStore × BrokerStore × Os)
      → Spends held m (fetch_obtained topic m part h r)
  unfolding fetch_obtained held
  fetch_obtained-Spends topic h (ok ps, bs, os) =
      fetched-Spends (partition_key topic part.partition) h bs (fetch_from m part os ps)
        (fetch_from-Spent os ps)
  fetch_obtained-Spends topic h (err e, bs, os) = omega arith
  fetch_obtained-Spends topic h (panic, bs, os) = tt

  fetch_partition-Spends :
      (topic : Bytes) (os : Os) (h : Handler) → Spends held m (fetch_partition topic m part os h)
  unfolding fetch_partition
  fetch_partition-Spends topic os h =
      fetch_obtained-Spends topic h (get_or_create_partition os h.store topic part.partition)

-- Two steps of a loop over the budget.
module _ {R S T : Type 0} (w : R → ℕ) (v : S → ℕ) (u : T → ℕ) (both : R → S → T)
    (adds : (r : R) (s : S) → u (both r s) ≡ w r + v s) where
  last_step :
      (m left : ℕ) (r : R) (o : Outcome ProtocolError ((S × ℕ) × Handler × Os))
      → w r + left ≡ m
      → Spends v left o
      → Spends u m (elim o [
        | ok ((s, left'), h, os) ↦ ok ((both r s, left'), h, os)
        | err e ↦ err e
        | panic ↦ panic
      ])
  last_step m left r (ok ((s, left'), h, os)) a b = omega (arith, adds r s)
  last_step m left r (err e) a b = tt
  last_step m left r panic a b = tt

  two_steps :
      (m : ℕ) (o : Outcome ProtocolError ((R × ℕ) × Handler × Os)) (next : ℕ → Run (S × ℕ))
      → Spends w m o
      → ((left : ℕ) → left ≤ m → (os : Os) (h : Handler) → Spends v left (next left os h))
      → Spends u m (elim o [
        | ok ((r, left), h, os) ↦ (next left >>= λ (s, left'). pure (both r s, left')) os h
        | err e ↦ err e
        | panic ↦ panic
      ])
  two_steps m (ok ((r, left), h, os)) next a k =
      last_step m left r (next left os h) a (k left (omega arith) os h)
  two_steps m (err e) next a k = tt
  two_steps m panic next a k = tt

fetch_partitions-Spends :
    (parts : List FetchPartitionData) (topic : Bytes) (m : ℕ)
    → m < 0x8000_0000
    → (os : Os) (h : Handler) → Spends held_partitions m (fetch_partitions topic m parts os h)
unfolding fetch_partitions held_partitions
fetch_partitions-Spends [] topic m b os h = omega arith
fetch_partitions-Spends (part ∷ parts) topic m b os h =
    two_steps held held_partitions held_partitions (λ r rs. r ∷ rs) (λ r rs. refl) m
      (fetch_partition topic m part os h) (λ left. fetch_partitions topic left parts)
      (fetch_partition-Spends m b part topic os h)
      (λ left c os' h'. fetch_partitions-Spends parts topic left (omega arith) os' h')

-- Whatever the stores hold and whatever the system calls do, the batches of a response to a Fetch
-- request whose maximum is not negative, all topics and partitions taken together, hold no
-- more bytes than that maximum: what they hold is what is missing from the budget that is left.
pub fetch_topics-budget :
    (topics : List FetchTopicData) (max_bytes : ℕ)
    → max_bytes < 0x8000_0000
    → (os : Os) (h : Handler) → Spends held_topics max_bytes (fetch_topics max_bytes topics os h)
unfolding fetch_topics held_topics
fetch_topics-budget [] m b os h = omega arith
fetch_topics-budget (t ∷ ts) m b os h =
    two_steps held_partitions held_topics held_topics
      (λ r rs. record { topic_name = t.topic_name; partitions = r } ∷ rs) (λ r rs. refl) m
      (fetch_partitions t.topic_name m t.partitions os h) (λ left. fetch_topics left ts)
      (fetch_partitions-Spends t.partitions t.topic_name m b os h)
      (λ left c os' h'. fetch_topics-budget ts left (omega arith) os' h')
