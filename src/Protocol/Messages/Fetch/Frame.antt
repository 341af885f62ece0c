-- ===== src/Protocol/Messages/Fetch/Frame.antt =====
-- The size prefix of a Fetch response.
use kage.Prelude.{
  ℕ, ◌+◌, ◌%◌, ◌<◌, ◌≡◌, refl, ◌∙◌, false, none, some, List, [], ◌∷◌, ◌++◌, append_assoc, arith,
  Bytes, length, length-append, Option-cases, inl, inr, All, add32, IsU32, if◌then◌else◌,
}
use kage.Binary.{put_uint16, put_uint32}
use kage.Binary.RoundTrip.{length-put_uint16, length-put_uint32, length-put_uint64}
use kage.Protocol.Encoder.Layout.{layout, wire_string}
use kage.Protocol.Messages.Fetch.{
  FetchPartitionResponse, FetchTopicResponse, FetchResponse, is_positive32, partitions_payload,
  topics_payload, total_payload, copy_batch, write_fetch_partition, write_fetch_partitions,
  write_fetch_topics, write_fetch_response, topic_header, frame_header,
}

-- A partition whose stated batch size is what its reader delivers, or which has no batch.
abbrev pub IsConsistent : FetchPartitionResponse → Type 0
IsConsistent p = elim p.record_batch [
  | none ↦ is_positive32 p.batch_size ≡ false
  | some b ↦ (p.batch_size ≡ length b) × (length b < 0x8000_0000)
]

abbrev pub TopicIsConsistent : FetchTopicResponse → Type 0
TopicIsConsistent t = All IsConsistent t.partitions

length-wire_string : (s : Bytes) → length (wire_string s) ≡ 2 + length s
unfolding wire_string
length-wire_string s =
    omega (arith, length-append (put_uint16 (length s)) s, length-put_uint16 (length s))

length-copy_batch :
    (w : Bytes) (p : FetchPartitionResponse)
    → IsConsistent p
    → length (copy_batch w p) ≡ length w + (if is_positive32 p.batch_size then p.batch_size else 0)
unfolding copy_batch
length-copy_batch w p c = elim (Option-cases p.record_batch) [
  | inl e ↦ ground arith
  | inr (b, e) ↦ ground (arith, length-append w b)
]

-- Each partition adds the 30 fixed bytes and its batch.
length-write_fetch_partition :
    (w : Bytes) (p : FetchPartitionResponse)
    → IsConsistent p
    → length (write_fetch_partition w p)
      ≡ length w + 30 + (if is_positive32 p.batch_size then p.batch_size else 0)
unfolding write_fetch_partition
length-write_fetch_partition w p c =
    simp
      (
        layout,
        length-copy_batch _ p c,
        length-append,
        length-put_uint16,
        length-put_uint32,
        length-put_uint64,
      )
      (omega arith)

-- The size counted and the bytes written grow alike, modulo 2 ^ 32.
partitions_payload-length :
    (w : Bytes) (total : ℕ) (ps : List FetchPartitionResponse)
    → IsU32 total
    → All IsConsistent ps
    → IsU32 (partitions_payload total ps)
      × ((partitions_payload total ps + length w) % 0x1_0000_0000
          ≡ (total + length (write_fetch_partitions w ps)) % 0x1_0000_0000)
unfolding partitions_payload write_fetch_partitions
partitions_payload-length w total [] h c = omega arith
partitions_payload-length w total (p ∷ ps) h c = ground (
  arith,
  length-write_fetch_partition w p c.0,
  partitions_payload-length (write_fetch_partition w p)
      (if is_positive32 p.batch_size then add32 (add32 total 30) p.batch_size else add32 total 30)
      ps,
  c.1,
)

topic_header-length : (t : FetchTopicResponse) → length (topic_header t) ≡ length t.topic_name + 6
unfolding topic_header
topic_header-length t =
    simp (layout, length-append, length-put_uint32, length-wire_string) (omega arith)

topics_payload-length :
    (w : Bytes) (total : ℕ) (ts : List FetchTopicResponse)
    → IsU32 total
    → All TopicIsConsistent ts
    → IsU32 (topics_payload total ts)
      × ((topics_payload total ts + length w) % 0x1_0000_0000
          ≡ (total + length (write_fetch_topics w ts)) % 0x1_0000_0000)
unfolding topics_payload write_fetch_topics
topics_payload-length w total [] h c = omega arith
topics_payload-length w total (t ∷ ts) h c =
    let total' = add32 total (2 + length t.topic_name + 4) in
    let w' = w ++ topic_header t in
    let (small, same) = partitions_payload-length w' total' t.partitions (omega arith) c.0 in
    omega (
      arith,
      topic_header-length t,
      length-append w (topic_header t),
      small,
      same,
      topics_payload-length (write_fetch_partitions w' t.partitions)
          (partitions_payload total' t.partitions) ts small c.1,
    )

-- What is written goes behind what was there.
copy_batch-append :
    (v w : Bytes) (p : FetchPartitionResponse) → copy_batch (v ++ w) p ≡ v ++ copy_batch w p
unfolding copy_batch
copy_batch-append v w p = elim (Option-cases p.record_batch) [
  | inl e ↦ ground arith
  | inr (b, e) ↦ ground (arith, append_assoc v w b)
]

write_fetch_partition-append :
    (v w : Bytes) (p : FetchPartitionResponse)
    → write_fetch_partition (v ++ w) p ≡ v ++ write_fetch_partition w p
unfolding write_fetch_partition
write_fetch_partition-append v w p = simp (append_assoc, copy_batch-append)

write_fetch_partitions-append :
    (v w : Bytes) (ps : List FetchPartitionResponse)
    → write_fetch_partitions (v ++ w) ps ≡ v ++ write_fetch_partitions w ps
unfolding write_fetch_partitions
write_fetch_partitions-append v w [] = refl
write_fetch_partitions-append v w (p ∷ ps) =
    rw (write_fetch_partition-append v w p)
      (write_fetch_partitions-append v (write_fetch_partition w p) ps)

write_fetch_topics-append :
    (v w : Bytes) (ts : List FetchTopicResponse)
    → write_fetch_topics (v ++ w) ts ≡ v ++ write_fetch_topics w ts
unfolding write_fetch_topics
write_fetch_topics-append v w [] = refl
write_fetch_topics-append v w (t ∷ ts) =
    simp (append_assoc, write_fetch_partitions-append)
      (write_fetch_topics-append v (w ++ write_fetch_partitions (topic_header t) t.partitions) ts)

-- The bytes written depend on the count modulo 2 ^ 32 alone.
put_uint32-mod : (n m : ℕ) → n % 0x1_0000_0000 ≡ m % 0x1_0000_0000 → put_uint32 n ≡ put_uint32 m
unfolding put_uint32
put_uint32-mod n m h = ground arith

-- What follows the size prefix.
unfoldable pub fetch_body : ℕ → FetchResponse → Bytes
fetch_body correlation_id resp = write_fetch_topics (frame_header correlation_id resp) resp.topics

length-frame_header : (id : ℕ) (resp : FetchResponse) → length (frame_header id resp) ≡ 12
unfolding frame_header
length-frame_header id resp = simp (layout, length-append, length-put_uint32)

total_payload-length :
    (id : ℕ) (resp : FetchResponse)
    → All TopicIsConsistent resp.topics
    → total_payload resp % 0x1_0000_0000 ≡ length (fetch_body id resp) % 0x1_0000_0000
unfolding total_payload fetch_body
total_payload-length id resp c = omega (
  arith,
  length-frame_header id resp,
  topics_payload-length (frame_header id resp) 12 resp.topics (omega arith) c,
)

-- The body starts with the correlation id.
pub fetch_body-starts :
    (id : ℕ) (resp : FetchResponse) → (rest : Bytes) × (fetch_body id resp ≡ put_uint32 id ++ rest)
unfolding fetch_body frame_header
fetch_body-starts id resp =
    let tail = put_uint32 resp.throttle_time_ms ++ put_uint32 (length resp.topics) in
    (
      write_fetch_topics tail resp.topics,
      simp (layout) (write_fetch_topics-append (put_uint32 id) tail resp.topics),
    )

-- If the batch size of each partition is the length of its batch, or not positive where there is
-- no batch, then what `write_fetch_response` adds is the body behind a size prefix, and the
-- prefix, counted before anything is written, is the length of that body as an int32.
pub write_fetch_response-frame :
    (w : Bytes) (id : ℕ) (resp : FetchResponse)
    → All TopicIsConsistent resp.topics
    → write_fetch_response w id resp
      ≡ w ++ (put_uint32 (length (fetch_body id resp)) ++ fetch_body id resp)
unfolding write_fetch_response fetch_body
write_fetch_response-frame w id resp c =
    write_fetch_topics-append (w ++ put_uint32 (total_payload resp)) (frame_header id resp)
      resp.topics
    ∙ rw (put_uint32-mod _ _ (total_payload-length id resp c)) (append_assoc w _ _)
