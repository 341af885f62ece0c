-- ===== src/Protocol/Messages/MetadataResponse/RoundTrip.antt =====
-- A client of the layouts of versions 0 to 6 reads the Metadata response that was encoded for it.
use kage.Prelude.{
  ℕ, ◌%◌, ◌∙◌, ◌≤◌, ◌<◌, ◌≡◌, refl, Bool, true, false, none, [], ◌∷◌, ◌++◌, append_assoc, arith,
  Bytes, length, All, IsU16, IsU32, wire_all, slt16, if◌then◌else◌,
}
use kage.Outcome.{ok}
use kage.Binary.{put_uint16, put_uint32}
use kage.Protocol.Encoder.{Encoder, write_int8, write_int32, write_nullable_string}
use kage.Protocol.Encoder.Layout.{
  wire_string, wire_nullable_string, layout, buffer-write_int8, buffer-write_int32,
  buffer-write_nullable_string,
}
use kage.Protocol.Decoder.{◌>>=◌, read_int32, read_bool}
use kage.Protocol.Decoder.RoundTrip.{reads, read_bool-byte, read_int32-put_uint32}
use kage.Protocol.Arrays.{U32-small, read_array-wire_all, buffer-write_each}
use kage.Protocol.Messages.MetadataResponse.{
  PartitionMetadata, TopicMetadata, Broker, MetadataResponse, write_ids, write_broker,
  write_partition_metadata, write_topic_metadata, encode_metadata_response,
}
use kage.Protocol.Messages.MetadataResponse.Client.{
  from, read_nullable_string, client_ids, client_broker, client_partition_metadata,
  client_topic_metadata, client_metadata,
}
use kage.Protocol.Messages.MetadataResponse.Layout.{
  NullableFits, IdsFit, wire_from, buffer-since, from-wire_from, read_nullable_string-wire,
  wire_ids, buffer-write_ids, client_ids-wire_ids,
}

module _ (version : ℕ) where
  -- A broker fits the format and says nothing that the version has no field for.
  pub record BrokerFits (b : Broker) : Type 0 where
    pub node_id : IsU32 b.node_id
    pub host : length b.host < 0x8000
    pub port : IsU32 b.port
    pub rack : NullableFits b.rack
    pub rack_since : slt16 version 1 ≡ true → b.rack ≡ none

  pub record PartitionFits (p : PartitionMetadata) : Type 0 where
    pub error_code : IsU16 p.error_code
    pub partition : IsU32 p.partition
    pub leader : IsU32 p.leader
    pub replicas : IdsFit p.replicas
    pub isr : IdsFit p.isr
    pub offline_replicas : IdsFit p.offline_replicas
    pub offline_since : slt16 version 5 ≡ true → p.offline_replicas ≡ []

  pub record TopicFits (t : TopicMetadata) : Type 0 where
    pub error_code : IsU16 t.error_code
    pub name : length t.name < 0x8000
    pub internal_since : slt16 version 1 ≡ true → t.is_internal ≡ false
    pub partition_count : length t.partitions < 0x8000_0000
    pub partitions : All PartitionFits t.partitions

  pub record ResponseFits (r : MetadataResponse) : Type 0 where
    pub broker_count : length r.brokers < 0x8000_0000
    pub brokers : All BrokerFits r.brokers
    pub cluster_id : NullableFits r.cluster_id
    pub cluster_since : slt16 version 2 ≡ true → r.cluster_id ≡ none
    pub controller_id : IsU32 r.controller_id
    pub controller_since : slt16 version 1 ≡ true → r.controller_id ≡ 0
    pub topic_count : length r.topics < 0x8000_0000
    pub topics : All TopicFits r.topics

  unfoldable wire_broker : Broker → Bytes
  wire_broker b =
      put_uint32 b.node_id
      ++ (wire_string b.host
          ++ (put_uint32 b.port ++ wire_from 1 version (wire_nullable_string b.rack)))

  unfoldable wire_partition : PartitionMetadata → Bytes
  wire_partition p =
      put_uint16 p.error_code
      ++ (put_uint32 p.partition
          ++ (put_uint32 p.leader
              ++ (wire_ids p.replicas
                  ++ (wire_ids p.isr ++ wire_from 5 version (wire_ids p.offline_replicas)))))

  -- A Boolean as a byte.
  abbrev flag : Bool → ℕ
  flag b = (if b then 1 else 0) % 0x100

  unfoldable wire_topic : TopicMetadata → Bytes
  wire_topic t =
      put_uint16 t.error_code
      ++ (wire_string t.name
          ++ (wire_from 1 version (flag t.is_internal ∷ [])
              ++ (put_uint32 (length t.partitions) ++ wire_all wire_partition t.partitions)))

  buffer-write_broker :
      (e : Encoder) (b : Broker) → (write_broker version e b).buffer ≡ e.buffer ++ wire_broker b
  unfolding write_broker wire_broker
  buffer-write_broker e b =
      buffer-since 1 version (λ e'. write_nullable_string e' b.rack) (wire_nullable_string b.rack) _
        (buffer-write_nullable_string _ b.rack)
      ∙ simp layout

  buffer-write_partition_metadata :
      (e : Encoder) (p : PartitionMetadata)
      → (write_partition_metadata version e p).buffer ≡ e.buffer ++ wire_partition p
  unfolding write_partition_metadata wire_partition
  buffer-write_partition_metadata e p =
      buffer-since 5 version (write_ids p.offline_replicas) (wire_ids p.offline_replicas) _
        (buffer-write_ids p.offline_replicas _)
      ∙ simp (layout, buffer-write_ids)

  buffer-write_topic_metadata :
      (e : Encoder) (t : TopicMetadata)
      → (write_topic_metadata version e t).buffer ≡ e.buffer ++ wire_topic t
  unfolding write_topic_metadata wire_topic
  buffer-write_topic_metadata e t =
      let internal = λ (e0 : Encoder).
        buffer-since 1 version (λ e'. write_int8 e' (if t.is_internal then 1 else 0))
          (flag t.is_internal ∷ []) e0 (buffer-write_int8 e0 _) in
      simp (
        buffer-write_each wire_partition (write_partition_metadata version)
            buffer-write_partition_metadata,
        internal,
        layout,
      )

  client_broker-wire_broker :
      (b : Broker) (rest : Bytes)
      → BrokerFits b
      → client_broker version (wire_broker b ++ rest) ≡ ok (b, rest)
  unfolding client_broker wire_broker
  client_broker-wire_broker b rest f = simp (
    append_assoc,
    reads,
    ◌>>=◌,
    f.node_id,
    f.host,
    f.port,
    from-wire_from 1 version read_nullable_string none b.rack (wire_nullable_string b.rack) rest
        f.rack_since (read_nullable_string-wire b.rack rest f.rack),
  )

  client_partition-wire_partition :
      (p : PartitionMetadata) (rest : Bytes)
      → PartitionFits p
      → client_partition_metadata version (wire_partition p ++ rest) ≡ ok (p, rest)
  unfolding client_partition_metadata wire_partition
  client_partition-wire_partition p rest f = simp (
    append_assoc,
    reads,
    client_ids-wire_ids,
    ◌>>=◌,
    f.error_code,
    f.partition,
    f.leader,
    f.replicas,
    f.isr,
    from-wire_from 5 version client_ids [] p.offline_replicas (wire_ids p.offline_replicas) rest
        f.offline_since (client_ids-wire_ids p.offline_replicas rest f.offline_replicas),
  )

  read_bool-flag : (b : Bool) (rest : Bytes) → read_bool (flag b ∷ rest) ≡ ok (b, rest)
  read_bool-flag true rest = read_bool-byte 1 rest
  read_bool-flag false rest = read_bool-byte 0 rest

  client_topic-wire_topic :
      (t : TopicMetadata) (rest : Bytes)
      → TopicFits t
      → client_topic_metadata version (wire_topic t ++ rest) ≡ ok (t, rest)
  unfolding client_topic_metadata wire_topic
  client_topic-wire_topic t rest f =
      let after =
        put_uint32 (length t.partitions) ++ (wire_all wire_partition t.partitions ++ rest) in
      simp (
        append_assoc,
        reads,
        ◌>>=◌,
        f.error_code,
        f.name,
        U32-small _ f.partition_count,
        from-wire_from 1 version read_bool false t.is_internal (flag t.is_internal ∷ []) after
            f.internal_since (read_bool-flag t.is_internal after),
        read_array-wire_all wire_partition (client_partition_metadata version) PartitionFits
            client_partition-wire_partition t.partitions rest f.partition_count f.partitions,
      )

  read_no_throttle :
      (rest : Bytes)
      → from 3 version read_int32 0 (wire_from 3 version (put_uint32 0) ++ rest) ≡ ok (0, rest)
  read_no_throttle rest =
      from-wire_from 3 version read_int32 0 0 (put_uint32 0) rest (λ _. refl)
        (read_int32-put_uint32 0 rest (omega arith))

  -- For a version from 0 to 6, whose layouts the encoder writes, a client that reads the Metadata
  -- response encoded into an empty buffer for that version gets the correlation id and the response
  -- that were encoded, whatever follows, when the id fits 32 bits and the response fits the format
  -- and holds in no field something that the version leaves out.
  pub client_metadata-encode_metadata_response :
      (e : Encoder) (id : ℕ) (resp : MetadataResponse) (rest : Bytes)
      → version ≤ 6
      → e.buffer ≡ []
      → IsU32 id
      → ResponseFits resp
      → client_metadata version ((encode_metadata_response e id version resp).buffer ++ rest)
        ≡ ok ((id, resp), rest)
  unfolding encode_metadata_response client_metadata
  client_metadata-encode_metadata_response e id resp rest known empty h f =
      let throttle = λ (e0 : Encoder).
        buffer-since 3 version (λ e'. write_int32 e' 0) (put_uint32 0) e0
          (buffer-write_int32 e0 0) in
      let cluster = λ (e0 : Encoder).
        buffer-since 2 version (λ e'. write_nullable_string e' resp.cluster_id)
          (wire_nullable_string resp.cluster_id) e0
          (buffer-write_nullable_string e0 resp.cluster_id) in
      let controller = λ (e0 : Encoder).
        buffer-since 1 version (λ e'. write_int32 e' resp.controller_id)
          (put_uint32 resp.controller_id) e0 (buffer-write_int32 e0 resp.controller_id) in
      let read_cluster = λ (s : Bytes).
        from-wire_from 2 version read_nullable_string none resp.cluster_id
          (wire_nullable_string resp.cluster_id) s f.cluster_since
          (read_nullable_string-wire resp.cluster_id s f.cluster_id) in
      let read_controller = λ (s : Bytes).
        from-wire_from 1 version read_int32 0 resp.controller_id (put_uint32 resp.controller_id) s
          f.controller_since (read_int32-put_uint32 resp.controller_id s f.controller_id) in
      let read_brokers = λ (s : Bytes).
        read_array-wire_all wire_broker (client_broker version) BrokerFits client_broker-wire_broker
          resp.brokers s f.broker_count f.brokers in
      simp (
        buffer-write_each wire_topic (write_topic_metadata version) buffer-write_topic_metadata,
        buffer-write_each wire_broker (write_broker version) buffer-write_broker,
        throttle,
        cluster,
        controller,
        layout,
        empty,
        reads,
        ◌>>=◌,
        h,
        read_no_throttle,
        read_cluster,
        read_controller,
        read_brokers,
        U32-small _ f.broker_count,
        U32-small _ f.topic_count,
        read_array-wire_all wire_topic (client_topic_metadata version) TopicFits
            client_topic-wire_topic resp.topics rest f.topic_count f.topics,
      )
