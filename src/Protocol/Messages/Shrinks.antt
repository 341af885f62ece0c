-- ===== src/Protocol/Messages/Shrinks.antt =====
-- The parsers of internal/protocol/messages.go only take bytes from the stream.
use kage.Protocol.Decoder.{Stream}
use kage.Protocol.Decoder.Shrinks.{
  Shrinks, Shorter, >>=-Shorter, read_int32-Shorter, reader_shrinks,
}
use kage.Protocol.Messages.Header.{RequestHeader, parse_request_header}
use kage.Protocol.Messages.Metadata.{skip_auto_creation, parse_metadata_request}
use kage.Protocol.Messages.Produce.{
  parse_produce_partition, parse_produce_topic, skip_transactional_id, parse_produce_request,
}
use kage.Protocol.Messages.Fetch.{parse_fetch_partition, parse_fetch_topic, parse_fetch_request}
use kage.Protocol.Messages.OffsetCommit.{
  parse_commit_partition, parse_commit_topic, parse_offset_commit_request,
}
use kage.Protocol.Messages.OffsetFetch.{
  parse_committed_partition, parse_committed_topic, parse_offset_fetch_request,
}
use kage.Protocol.Messages.ListOffsets.{
  parse_list_partition, parse_list_topic, parse_list_offsets_request,
}
use kage.Protocol.Messages.Group.{
  parse_find_coordinator_request, read_sized, parse_join_protocol, parse_join_group_request,
  parse_heartbeat_request, parse_leave_group_request, parse_sync_assignment,
  parse_sync_group_request,
}

skip_auto_creation-Shrinks : (header : RequestHeader) → Shrinks (skip_auto_creation header)
unfolding skip_auto_creation
skip_auto_creation-Shrinks header = search (reader_shrinks) depth 16

pub parse_metadata_request-Shrinks :
    (header : RequestHeader) → Shrinks (parse_metadata_request header)
unfolding parse_metadata_request
parse_metadata_request-Shrinks header = search (reader_shrinks, skip_auto_creation-Shrinks) depth 16

parse_produce_partition-Shrinks : Shrinks parse_produce_partition
unfolding parse_produce_partition
parse_produce_partition-Shrinks = search (reader_shrinks) depth 16

parse_produce_topic-Shrinks : Shrinks parse_produce_topic
unfolding parse_produce_topic
parse_produce_topic-Shrinks = search (reader_shrinks, parse_produce_partition-Shrinks) depth 16

skip_transactional_id-Shrinks : (header : RequestHeader) → Shrinks (skip_transactional_id header)
unfolding skip_transactional_id
skip_transactional_id-Shrinks header = search (reader_shrinks) depth 16

pub parse_produce_request-Shrinks :
    (header : RequestHeader) → Shrinks (parse_produce_request header)
unfolding parse_produce_request
parse_produce_request-Shrinks header =
    search (reader_shrinks, skip_transactional_id-Shrinks, parse_produce_topic-Shrinks) depth 16

parse_fetch_partition-Shrinks : Shrinks parse_fetch_partition
unfolding parse_fetch_partition
parse_fetch_partition-Shrinks = search (reader_shrinks) depth 16

parse_fetch_topic-Shrinks : Shrinks parse_fetch_topic
unfolding parse_fetch_topic
parse_fetch_topic-Shrinks = search (reader_shrinks, parse_fetch_partition-Shrinks) depth 16

pub parse_fetch_request-Shrinks : (header : RequestHeader) → Shrinks (parse_fetch_request header)
unfolding parse_fetch_request
parse_fetch_request-Shrinks header = search (reader_shrinks, parse_fetch_topic-Shrinks) depth 16

parse_commit_partition-Shrinks : Shrinks parse_commit_partition
unfolding parse_commit_partition
parse_commit_partition-Shrinks = search (reader_shrinks) depth 16

parse_commit_topic-Shrinks : Shrinks parse_commit_topic
unfolding parse_commit_topic
parse_commit_topic-Shrinks = search (reader_shrinks, parse_commit_partition-Shrinks) depth 16

pub parse_offset_commit_request-Shrinks : Shrinks parse_offset_commit_request
unfolding parse_offset_commit_request
parse_offset_commit_request-Shrinks = search (reader_shrinks, parse_commit_topic-Shrinks) depth 16

parse_committed_partition-Shrinks : Shrinks parse_committed_partition
unfolding parse_committed_partition
parse_committed_partition-Shrinks = search (reader_shrinks) depth 16

parse_committed_topic-Shrinks : Shrinks parse_committed_topic
unfolding parse_committed_topic
parse_committed_topic-Shrinks = search (reader_shrinks, parse_committed_partition-Shrinks) depth 16

pub parse_offset_fetch_request-Shrinks : Shrinks parse_offset_fetch_request
unfolding parse_offset_fetch_request
parse_offset_fetch_request-Shrinks = search (reader_shrinks, parse_committed_topic-Shrinks) depth 16

parse_list_partition-Shrinks : Shrinks parse_list_partition
unfolding parse_list_partition
parse_list_partition-Shrinks = search (reader_shrinks) depth 16

parse_list_topic-Shrinks : Shrinks parse_list_topic
unfolding parse_list_topic
parse_list_topic-Shrinks = search (reader_shrinks, parse_list_partition-Shrinks) depth 16

pub parse_list_offsets_request-Shrinks :
    (header : RequestHeader) → Shrinks (parse_list_offsets_request header)
unfolding parse_list_offsets_request
parse_list_offsets_request-Shrinks header =
    search (reader_shrinks, parse_list_topic-Shrinks) depth 16

pub parse_find_coordinator_request-Shrinks : Shrinks parse_find_coordinator_request
unfolding parse_find_coordinator_request
parse_find_coordinator_request-Shrinks = search (reader_shrinks) depth 16

read_sized-Shrinks : Shrinks read_sized
unfolding read_sized
read_sized-Shrinks = search (reader_shrinks) depth 16

parse_join_protocol-Shrinks : Shrinks parse_join_protocol
unfolding parse_join_protocol
parse_join_protocol-Shrinks = search (reader_shrinks, read_sized-Shrinks) depth 16

pub parse_join_group_request-Shrinks : Shrinks parse_join_group_request
unfolding parse_join_group_request
parse_join_group_request-Shrinks = search (reader_shrinks, parse_join_protocol-Shrinks) depth 16

pub parse_heartbeat_request-Shrinks : Shrinks parse_heartbeat_request
unfolding parse_heartbeat_request
parse_heartbeat_request-Shrinks = search (reader_shrinks) depth 16

pub parse_leave_group_request-Shrinks : Shrinks parse_leave_group_request
unfolding parse_leave_group_request
parse_leave_group_request-Shrinks = search (reader_shrinks) depth 16

parse_sync_assignment-Shrinks : Shrinks parse_sync_assignment
unfolding parse_sync_assignment
parse_sync_assignment-Shrinks = search (reader_shrinks, read_sized-Shrinks) depth 16

pub parse_sync_group_request-Shrinks : Shrinks parse_sync_group_request
unfolding parse_sync_group_request
parse_sync_group_request-Shrinks = search (reader_shrinks, parse_sync_assignment-Shrinks) depth 16

-- A header takes bytes.
pub parse_request_header-Shorter : (s : Stream) → Shorter s (parse_request_header s)
unfolding parse_request_header
parse_request_header-Shorter s = search (>>=-Shorter, read_int32-Shorter, reader_shrinks) depth 16
