-- ===== src/Protocol/Messages/Correlation.antt =====
-- Every response starts with the correlation id.
use kage.Prelude.{ℕ, inl, inr, Bool-cases, slt16, List, Bytes}
use kage.Binary.{put_uint32}
use kage.Protocol.Encoder.{Encoder, new_encoder}
use kage.Protocol.Encoder.Starts.{StartsWith, starts}
use kage.Protocol.Messages.ListOffsets.{
  ListOffsetsPartitionResponse, ListOffsetsTopicResponse, ListOffsetsResponse, write_list_partition,
  write_list_topic, encode_list_offsets_response,
}
use kage.Protocol.Messages.OffsetCommit.{
  OffsetCommitPartitionResponse, OffsetCommitTopicResponse, OffsetCommitResponse,
  write_commit_partition, write_commit_topic, encode_offset_commit_response,
}
use kage.Protocol.Messages.OffsetFetch.{
  OffsetFetchPartitionResponse, OffsetFetchTopicResponse, OffsetFetchResponse,
  write_committed_partition, write_committed_topic, encode_offset_fetch_response,
}
use kage.Protocol.Messages.Produce.{
  ProducePartitionResponse, ProduceTopicResponse, ProduceResponse, write_produce_partition,
  write_produce_topic, encode_produce_response,
}
use kage.Protocol.Messages.Group.{
  JoinGroupMember, write_join_member, encode_find_coordinator_response, encode_join_group_response,
  encode_heartbeat_response, encode_leave_group_response, encode_sync_group_response,
}
use kage.Protocol.Messages.ApiVersions.{ApiVersion, write_api_version, encode_api_versions_response}
use kage.Protocol.Messages.MetadataResponse.{
  Broker, PartitionMetadata, TopicMetadata, MetadataResponse, since, write_ids, write_broker,
  write_partition_metadata, write_topic_metadata, encode_metadata_response,
}

module _ (b : Bytes) where
  write_list_partition-StartsWith :
      (e : Encoder) (p : ListOffsetsPartitionResponse)
      → StartsWith b e
      → StartsWith b (write_list_partition e p)
  unfolding write_list_partition
  write_list_partition-StartsWith e p s = search (starts)

  write_list_topic-StartsWith :
      (e : Encoder) (t : ListOffsetsTopicResponse)
      → StartsWith b e
      → StartsWith b (write_list_topic e t)
  unfolding write_list_topic
  write_list_topic-StartsWith e t s = search (starts, write_list_partition-StartsWith)

  write_commit_partition-StartsWith :
      (e : Encoder) (x : OffsetCommitPartitionResponse)
      → StartsWith b e
      → StartsWith b (write_commit_partition e x)
  unfolding write_commit_partition
  write_commit_partition-StartsWith e x s = search (starts)

  write_commit_topic-StartsWith :
      (e : Encoder) (x : OffsetCommitTopicResponse)
      → StartsWith b e
      → StartsWith b (write_commit_topic e x)
  unfolding write_commit_topic
  write_commit_topic-StartsWith e x s = search (starts, write_commit_partition-StartsWith)

  write_committed_partition-StartsWith :
      (e : Encoder) (x : OffsetFetchPartitionResponse)
      → StartsWith b e
      → StartsWith b (write_committed_partition e x)
  unfolding write_committed_partition
  write_committed_partition-StartsWith e x s = search (starts)

  write_committed_topic-StartsWith :
      (e : Encoder) (x : OffsetFetchTopicResponse)
      → StartsWith b e
      → StartsWith b (write_committed_topic e x)
  unfolding write_committed_topic
  write_committed_topic-StartsWith e x s = search (starts, write_committed_partition-StartsWith)

  write_produce_partition-StartsWith :
      (e : Encoder) (x : ProducePartitionResponse)
      → StartsWith b e
      → StartsWith b (write_produce_partition e x)
  unfolding write_produce_partition
  write_produce_partition-StartsWith e x s = search (starts)

  write_produce_topic-StartsWith :
      (e : Encoder) (x : ProduceTopicResponse)
      → StartsWith b e
      → StartsWith b (write_produce_topic e x)
  unfolding write_produce_topic
  write_produce_topic-StartsWith e x s = search (starts, write_produce_partition-StartsWith)

  write_join_member-StartsWith :
      (e : Encoder) (x : JoinGroupMember) → StartsWith b e → StartsWith b (write_join_member e x)
  unfolding write_join_member
  write_join_member-StartsWith e x s = search (starts)

  write_api_version-StartsWith :
      (e : Encoder) (x : ApiVersion) → StartsWith b e → StartsWith b (write_api_version e x)
  unfolding write_api_version
  write_api_version-StartsWith e x s = search (starts)

  since-StartsWith :
      (first version : ℕ) (write : Encoder → Encoder) (e : Encoder)
      → ((e : Encoder) → StartsWith b e → StartsWith b (write e))
      → StartsWith b e
      → StartsWith b (since first version write e)
  unfolding since
  since-StartsWith first version write e g s = elim (Bool-cases (slt16 version first)) [
    | inl older ↦ rw older s
    | inr newer ↦ rw newer (g e s)
  ]

  write_ids-StartsWith :
      (ids : List ℕ) (e : Encoder) → StartsWith b e → StartsWith b (write_ids ids e)
  unfolding write_ids
  write_ids-StartsWith ids e s = search (starts)

  module _ (version : ℕ) where
    write_broker-StartsWith :
        (e : Encoder) (x : Broker) → StartsWith b e → StartsWith b (write_broker version e x)
    unfolding write_broker
    write_broker-StartsWith e x s = search (starts, since-StartsWith)

    write_partition_metadata-StartsWith :
        (e : Encoder) (x : PartitionMetadata)
        → StartsWith b e
        → StartsWith b (write_partition_metadata version e x)
    unfolding write_partition_metadata
    write_partition_metadata-StartsWith e x s =
        search (starts, since-StartsWith, write_ids-StartsWith) depth 12

    write_topic_metadata-StartsWith :
        (e : Encoder) (x : TopicMetadata)
        → StartsWith b e
        → StartsWith b (write_topic_metadata version e x)
    unfolding write_topic_metadata
    write_topic_metadata-StartsWith e x s =
        search (starts, since-StartsWith, write_partition_metadata-StartsWith) depth 12

pub encode_list_offsets_response-StartsWith :
    (id : ℕ) (resp : ListOffsetsResponse)
    → StartsWith (put_uint32 id) (encode_list_offsets_response new_encoder id resp)
unfolding encode_list_offsets_response
encode_list_offsets_response-StartsWith id resp = search (starts, write_list_topic-StartsWith)

pub encode_offset_commit_response-StartsWith :
    (id : ℕ) (resp : OffsetCommitResponse)
    → StartsWith (put_uint32 id) (encode_offset_commit_response new_encoder id resp)
unfolding encode_offset_commit_response
encode_offset_commit_response-StartsWith id resp =
    search (starts, write_commit_topic-StartsWith) depth 16

pub encode_offset_fetch_response-StartsWith :
    (id : ℕ) (resp : OffsetFetchResponse)
    → StartsWith (put_uint32 id) (encode_offset_fetch_response new_encoder id resp)
unfolding encode_offset_fetch_response
encode_offset_fetch_response-StartsWith id resp =
    search (starts, write_committed_topic-StartsWith) depth 16

pub encode_produce_response-StartsWith :
    (id : ℕ) (resp : ProduceResponse)
    → StartsWith (put_uint32 id) (encode_produce_response new_encoder id resp)
unfolding encode_produce_response
encode_produce_response-StartsWith id resp =
    search (starts, write_produce_topic-StartsWith) depth 16

pub encode_find_coordinator_response-StartsWith :
    (id : ℕ) (node_id : ℕ) (host : Bytes) (port : ℕ)
    → StartsWith (put_uint32 id) (encode_find_coordinator_response new_encoder id node_id host port)
unfolding encode_find_coordinator_response
encode_find_coordinator_response-StartsWith id node_id host port = search (starts) depth 16

pub encode_join_group_response-StartsWith :
    (id : ℕ) (generation_id : ℕ) (protocol_name leader member_id : Bytes)
    (members : List JoinGroupMember)
    → StartsWith (put_uint32 id) (
        encode_join_group_response new_encoder id generation_id protocol_name leader member_id
          members)
unfolding encode_join_group_response
encode_join_group_response-StartsWith id generation_id protocol_name leader member_id members =
    search (starts, write_join_member-StartsWith) depth 16

pub encode_heartbeat_response-StartsWith :
    (id : ℕ) → StartsWith (put_uint32 id) (encode_heartbeat_response new_encoder id)
unfolding encode_heartbeat_response
encode_heartbeat_response-StartsWith id = search (starts) depth 16

pub encode_leave_group_response-StartsWith :
    (id : ℕ) → StartsWith (put_uint32 id) (encode_leave_group_response new_encoder id)
unfolding encode_leave_group_response
encode_leave_group_response-StartsWith id = search (starts) depth 16

pub encode_sync_group_response-StartsWith :
    (id : ℕ) (assignment : Bytes)
    → StartsWith (put_uint32 id) (encode_sync_group_response new_encoder id assignment)
unfolding encode_sync_group_response
encode_sync_group_response-StartsWith id assignment = search (starts) depth 16

pub encode_api_versions_response-StartsWith :
    (id : ℕ) → StartsWith (put_uint32 id) (encode_api_versions_response new_encoder id)
unfolding encode_api_versions_response
encode_api_versions_response-StartsWith id = search (starts, write_api_version-StartsWith) depth 16

pub encode_metadata_response-StartsWith :
    (id : ℕ) (version : ℕ) (resp : MetadataResponse)
    → StartsWith (put_uint32 id) (encode_metadata_response new_encoder id version resp)
unfolding encode_metadata_response
encode_metadata_response-StartsWith id version resp =
    search (starts, since-StartsWith, write_broker-StartsWith, write_topic_metadata-StartsWith)
      depth 16
