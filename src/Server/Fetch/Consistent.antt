-- ===== src/Server/Fetch/Consistent.antt =====
-- The batch sizes of a Fetch response are those of the batches.
use kage.Prelude.{
  ℕ, ◌+◌, ◌<◌, refl, inl, inr, Bool-cases, Option, none, some, List, [], ◌∷◌, arith, Bytes, length,
  length-drop, drop, ltb, slt32, slt64, is_neg32, add32, All, ◌||◌, ◌==◌, if◌then◌else◌,
}
use kage.Outcome.{Outcome, ok, err, panic}
use kage.Protocol.Error.{ProtocolError}
use kage.Protocol.Messages.Fetch.{FetchPartitionData, FetchTopicData, FetchPartitionResponse}
use kage.Protocol.Messages.Fetch.Frame.{IsConsistent, TopicIsConsistent}
use kage.Server.Fetch.{
  serve_raw, serve_read, fetch_from, fetched, fetch_obtained, fetch_partition, fetch_partitions,
  fetch_topics,
}
use kage.Server.Patch.Size.{length-patch_batches}
use kage.Server.Run.{Handler}
use kage.Server.Run.Always.{Returns, Always, >>=-Always}
use kage.Storage.Error.{StorageError}
use kage.Storage.Bufio.{Os}
use kage.Storage.Segment.{Section, read_section}
use kage.Storage.Store
use kage.Storage.Store.{PartitionStore}
use kage.Storage.Store.Bound.{AtMost, Delivers, read-Delivers}
use kage.Storage.BrokerStore.{BrokerStore, partition_key, get_or_create_partition}

abbrev Fits : Outcome ProtocolError (FetchPartitionResponse × ℕ) → Type 0
Fits (ok (r, _)) = IsConsistent r
Fits (err _) = Unit {0}
Fits panic = Unit {0}

module _ (m : ℕ) (part : FetchPartitionData) where
  serve_raw-IsConsistent :
      (c size : ℕ) (o : Option Bytes)
      → c < 0x8000_0000
      → AtMost (c + 4) o
      → IsConsistent (serve_raw m part size o).0
  unfolding serve_raw
  serve_raw-IsConsistent c size none b a = refl
  serve_raw-IsConsistent c size (some raw) b a = elim (Bool-cases (ltb (length raw) 4)) [
    | inl short ↦ simp short refl
    | inr long ↦
        let same = length-patch_batches part.fetch_offset (drop 4 raw) in
        let size' = length-drop 4 raw in
        simp long (ground (arith, same, size', a), ground (arith, same, size', a))
  ]

  serve_read-Fits :
      (c size : ℕ) (r : Outcome StorageError (Section × ℕ) × PartitionStore × Os)
      → c < 0x8000_0000
      → Delivers (c + 4) r
      → Fits (serve_read m part size r).0
  unfolding serve_read
  serve_read-Fits c size (ok (section, n), ps, os) b d =
      serve_raw-IsConsistent c size ((read_section os ps.active section n).0) b d
  serve_read-Fits c size (err e, ps, os) b d = refl
  serve_read-Fits c size (panic, ps, os) b d = tt

  fetch_from-Fits : (os : Os) (ps : PartitionStore) → Fits (fetch_from m part os ps).0
  unfolding fetch_from Store.size
  fetch_from-Fits os ps =
      let size = Store.size ps in
      let cap = if slt32 m part.partition_max_bytes then m else part.partition_max_bytes in
      elim (Bool-cases (part.fetch_offset == size)) [
        | inl a ↦ simp a refl
        | inr a ↦ elim (Bool-cases (slt64 size part.fetch_offset)) [
          | inl b ↦ simp (a, b) refl
          | inr b ↦ elim (Bool-cases (is_neg32 cap || cap == 0)) [
            | inl c ↦ simp (a, b, c) refl
            | inr c ↦
                simp (a, b, c)
                  (serve_read-Fits cap size (Store.read os ps part.fetch_offset (add32 cap 4))
                    (ground arith)
                    (read-Delivers os ps part.fetch_offset cap (ground arith) (ground arith)))
          ]
        ]
      ]

  fetched-Returns :
      (key : Bytes) (h : Handler) (bs : BrokerStore)
      (r : Outcome ProtocolError (FetchPartitionResponse × ℕ) × PartitionStore × Os)
      → Fits (r.0)
      → Returns (λ a. IsConsistent a.0) (fetched key h bs r)
  unfolding fetched
  fetched-Returns key h bs (ok (r, left), ps, os) k = k
  fetched-Returns key h bs (err e, ps, os) k = tt
  fetched-Returns key h bs (panic, ps, os) k = tt

  fetch_obtained-Returns :
      (topic : Bytes) (h : Handler) (r : Outcome StorageError PartitionStore × BrokerStore × Os)
      → Returns (λ a. IsConsistent a.0) (fetch_obtained topic m part h r)
  unfolding fetch_obtained
  fetch_obtained-Returns topic h (ok ps, bs, os) =
      fetched-Returns (partition_key topic part.partition) h bs (fetch_from m part os ps)
        (fetch_from-Fits os ps)
  fetch_obtained-Returns topic h (err e, bs, os) = refl
  fetch_obtained-Returns topic h (panic, bs, os) = tt

  fetch_partition-Always :
      (topic : Bytes) → Always (λ a. IsConsistent a.0) (fetch_partition topic m part)
  unfolding fetch_partition
  fetch_partition-Always topic os h =
      fetch_obtained-Returns topic h (get_or_create_partition os h.store topic part.partition)

fetch_partitions-Always :
    (topic : Bytes) (m : ℕ) (parts : List FetchPartitionData)
    → Always (λ a. All IsConsistent a.0) (fetch_partitions topic m parts)
unfolding fetch_partitions
fetch_partitions-Always topic m [] = λ os h. tt
fetch_partitions-Always topic m (part ∷ parts) =
    >>=-Always (λ a. IsConsistent a.0) _ (fetch_partition topic m part) _
      (fetch_partition-Always m part topic)
      (λ a c.
        >>=-Always (λ b. All IsConsistent b.0) _ (fetch_partitions topic a.1 parts) _
          (fetch_partitions-Always topic a.1 parts) (λ b d os h. (c, d)))

-- Whatever the stores hold and the system calls do.
pub fetch_topics-Always :
    (m : ℕ) (topics : List FetchTopicData)
    → Always (λ a. All TopicIsConsistent a.0) (fetch_topics m topics)
unfolding fetch_topics
fetch_topics-Always m [] = λ os h. tt
fetch_topics-Always m (t ∷ ts) =
    >>=-Always (λ a. All IsConsistent a.0) _ (fetch_partitions t.topic_name m t.partitions) _
      (fetch_partitions-Always t.topic_name m t.partitions)
      (λ a c.
        >>=-Always (λ b. All TopicIsConsistent b.0) _ (fetch_topics a.1 ts) _
          (fetch_topics-Always a.1 ts) (λ b d os h. (c, d)))
