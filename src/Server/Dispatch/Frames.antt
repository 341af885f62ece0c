-- ===== src/Server/Dispatch/Frames.antt =====
-- Every reply is one frame.
use kage.Prelude.{
  ℕ, ◌==◌, refl, inl, inr, Bool, Bool-cases, true, false, List, [], if◌then◌else◌, All,
}
use kage.Outcome.{err}
use kage.Protocol.Error.{ProtocolError}
use kage.Protocol.Decoder.{Stream}
use kage.Protocol.Messages.Fetch.{FetchResponse, parse_fetch_request}
use kage.Protocol.Messages.Constants.{acks_none}
use kage.Protocol.Messages.Fetch.Frame.{
  TopicIsConsistent, fetch_body, fetch_body-starts, write_fetch_response-frame,
}
use kage.Protocol.Messages.Header.{RequestHeader}
use kage.Protocol.Messages.Group.{
  parse_find_coordinator_request, parse_join_group_request, parse_heartbeat_request,
  parse_leave_group_request, parse_sync_group_request,
}
use kage.Protocol.Messages.ListOffsets.{parse_list_offsets_request}
use kage.Protocol.Messages.Metadata.{parse_metadata_request}
use kage.Protocol.Messages.OffsetCommit.{parse_offset_commit_request}
use kage.Protocol.Messages.OffsetFetch.{parse_offset_fetch_request}
use kage.Protocol.Messages.Produce.{ProduceRequest, ProduceTopicResponse, parse_produce_request}
use kage.Server.Coordinator.{
  handle_api_versions, handle_find_coordinator, handle_join_group, handle_heartbeat,
  handle_leave_group, handle_sync_group, join_reply, sync_reply,
}
use kage.Server.Dispatch.{dispatch}
use kage.Server.Dispatch.Framing.{prefixed-IsFrame, full_message-IsFrame, IsReply}
use kage.Protocol.Messages.Correlation.{
  encode_api_versions_response-StartsWith, encode_find_coordinator_response-StartsWith,
  encode_join_group_response-StartsWith, encode_heartbeat_response-StartsWith,
  encode_leave_group_response-StartsWith, encode_sync_group_response-StartsWith,
  encode_metadata_response-StartsWith, encode_list_offsets_response-StartsWith,
  encode_offset_commit_response-StartsWith, encode_offset_fetch_response-StartsWith,
  encode_produce_response-StartsWith,
}
use kage.Server.Fetch.{fetch_topics, handle_fetch}
use kage.Server.Fetch.Consistent.{fetch_topics-Always}
use kage.Server.Metadata.{ensure_topic, handle_metadata}
use kage.Server.Offsets.{
  list_topic, commit_topic, fetch_offsets_topic, handle_list_offsets, handle_offset_commit,
  handle_offset_fetch,
}
use kage.Server.Produce.{produce_topic, produce_reply, handle_produce}
use kage.Server.Run.{Handler, Run, parsed, each, Reply}
use kage.Storage.Bufio.{Os}
use kage.Server.Run.Always.{Returns, Always, >>=-Always, then-Always}

module _ (header : RequestHeader) (s : Stream) where
  handle_api_versions-IsReply :
      Always (IsReply header.correlation_id) (handle_api_versions header s)
  unfolding handle_api_versions
  handle_api_versions-IsReply os h =
      inr (full_message-IsFrame _ _ (encode_api_versions_response-StartsWith _))

  handle_find_coordinator-IsReply :
      Always (IsReply header.correlation_id) (handle_find_coordinator header s)
  unfolding handle_find_coordinator
  handle_find_coordinator-IsReply =
      then-Always (IsReply header.correlation_id) (parsed (parse_find_coordinator_request s)) _
        (λ _ os h.
          inr (full_message-IsFrame _ _ (encode_find_coordinator_response-StartsWith _ _ _ _)))

  handle_join_group-IsReply : Always (IsReply header.correlation_id) (handle_join_group header s)
  unfolding handle_join_group join_reply
  handle_join_group-IsReply =
      then-Always (IsReply header.correlation_id) (parsed (parse_join_group_request s)) _ (λ _ os h.
        inr (full_message-IsFrame _ _ (encode_join_group_response-StartsWith _ _ _ _ _ _)))

  handle_heartbeat-IsReply : Always (IsReply header.correlation_id) (handle_heartbeat header s)
  unfolding handle_heartbeat
  handle_heartbeat-IsReply =
      then-Always (IsReply header.correlation_id) (parsed (parse_heartbeat_request s)) _
        (λ _ os h. inr (full_message-IsFrame _ _ (encode_heartbeat_response-StartsWith _)))

  handle_leave_group-IsReply : Always (IsReply header.correlation_id) (handle_leave_group header s)
  unfolding handle_leave_group
  handle_leave_group-IsReply =
      then-Always (IsReply header.correlation_id) (parsed (parse_leave_group_request s)) _
        (λ _ os h. inr (full_message-IsFrame _ _ (encode_leave_group_response-StartsWith _)))

  handle_sync_group-IsReply : Always (IsReply header.correlation_id) (handle_sync_group header s)
  unfolding handle_sync_group sync_reply
  handle_sync_group-IsReply =
      then-Always (IsReply header.correlation_id) (parsed (parse_sync_group_request s)) _
        (λ _ os h. inr (full_message-IsFrame _ _ (encode_sync_group_response-StartsWith _ _)))

  handle_metadata-IsReply : Always (IsReply header.correlation_id) (handle_metadata header s)
  unfolding handle_metadata
  handle_metadata-IsReply =
      then-Always (IsReply header.correlation_id) (parsed (parse_metadata_request header s)) _ (λ a.
        then-Always (IsReply header.correlation_id) (each ensure_topic a.0.topics) _
          (λ _ os h. inr (full_message-IsFrame _ _ (encode_metadata_response-StartsWith _ _ _))))

  handle_list_offsets-IsReply :
      Always (IsReply header.correlation_id) (handle_list_offsets header s)
  unfolding handle_list_offsets
  handle_list_offsets-IsReply =
      then-Always (IsReply header.correlation_id) (parsed (parse_list_offsets_request header s)) _
        (λ a.
          then-Always (IsReply header.correlation_id) (each list_topic a.0.topics) _ (λ _ os h.
            inr (full_message-IsFrame _ _ (encode_list_offsets_response-StartsWith _ _))))

  handle_offset_commit-IsReply :
      Always (IsReply header.correlation_id) (handle_offset_commit header s)
  unfolding handle_offset_commit
  handle_offset_commit-IsReply =
      then-Always (IsReply header.correlation_id) (parsed (parse_offset_commit_request s)) _ (λ a.
        then-Always (IsReply header.correlation_id) (each (commit_topic a.0.group_id) a.0.topics) _
          (λ _ os h. inr (full_message-IsFrame _ _ (encode_offset_commit_response-StartsWith _ _))))

  handle_offset_fetch-IsReply :
      Always (IsReply header.correlation_id) (handle_offset_fetch header s)
  unfolding handle_offset_fetch
  handle_offset_fetch-IsReply =
      then-Always (IsReply header.correlation_id) (parsed (parse_offset_fetch_request s)) _ (λ a.
        then-Always (IsReply header.correlation_id)
          (each (fetch_offsets_topic a.0.group_id) a.0.topics) _
          (λ _ os h. inr (full_message-IsFrame _ _ (encode_offset_fetch_response-StartsWith _ _))))

  produce_reply-IsReply :
      (req : ProduceRequest) (topics : List ProduceTopicResponse)
      → IsReply header.correlation_id (produce_reply header req topics, s)
  unfolding produce_reply
  produce_reply-IsReply req topics = elim (Bool-cases (req.acks == acks_none)) [
    | inl silent ↦ rw silent (inl refl)
    | inr answers ↦
        rw answers (inr (full_message-IsFrame _ _ (encode_produce_response-StartsWith _ _)))
  ]

  handle_produce-IsReply : Always (IsReply header.correlation_id) (handle_produce header s)
  unfolding handle_produce
  handle_produce-IsReply =
      then-Always (IsReply header.correlation_id) (parsed (parse_produce_request header s)) _ (λ a.
        then-Always (IsReply header.correlation_id) (each produce_topic a.0.topics) _
          (λ topics os h. produce_reply-IsReply a.0 topics))

  handle_fetch-IsReply : Always (IsReply header.correlation_id) (handle_fetch header s)
  unfolding handle_fetch
  handle_fetch-IsReply =
      then-Always (IsReply header.correlation_id) (parsed (parse_fetch_request header s)) _ (λ a.
        >>=-Always (λ b. All TopicIsConsistent b.0) (IsReply header.correlation_id)
          (fetch_topics a.0.max_bytes a.0.topics) _ (fetch_topics-Always a.0.max_bytes a.0.topics)
          (λ b c os h.
            let resp : FetchResponse = record { topics = b.0; throttle_time_ms = 0 } in
            let start = fetch_body-starts header.correlation_id resp in
            inr (
              rw (write_fetch_response-frame [] header.correlation_id resp c) (
                prefixed-IsFrame header.correlation_id (fetch_body header.correlation_id resp)
                  start.0 start.1))))

-- A handler whose replies are replies.
record Replies (id : ℕ) (m : Run Reply) : Type 0 where
  always : Always (IsReply id) m

if-Replies :
    (id : ℕ) (b : Bool) (m m' : Run Reply)
    → Replies id m
    → Replies id m'
    → Replies id (if b then m else m')
if-Replies id true m m' h h' = h
if-Replies id false m m' h h' = h'

-- A request that is refused has no reply.
unsupported-Replies : (id : ℕ) (e : ProtocolError) → Replies id (λ os h. err e)
unsupported-Replies id e = record { always = λ os h. tt }

produce-Replies :
    (header : RequestHeader) (s : Stream) → Replies header.correlation_id (handle_produce header s)
produce-Replies header s = record { always = handle_produce-IsReply header s }

fetch-Replies :
    (header : RequestHeader) (s : Stream) → Replies header.correlation_id (handle_fetch header s)
fetch-Replies header s = record { always = handle_fetch-IsReply header s }

list_offsets-Replies :
    (header : RequestHeader) (s : Stream)
    → Replies header.correlation_id (handle_list_offsets header s)
list_offsets-Replies header s = record { always = handle_list_offsets-IsReply header s }

metadata-Replies :
    (header : RequestHeader) (s : Stream) → Replies header.correlation_id (handle_metadata header s)
metadata-Replies header s = record { always = handle_metadata-IsReply header s }

offset_commit-Replies :
    (header : RequestHeader) (s : Stream)
    → Replies header.correlation_id (handle_offset_commit header s)
offset_commit-Replies header s = record { always = handle_offset_commit-IsReply header s }

offset_fetch-Replies :
    (header : RequestHeader) (s : Stream)
    → Replies header.correlation_id (handle_offset_fetch header s)
offset_fetch-Replies header s = record { always = handle_offset_fetch-IsReply header s }

find_coordinator-Replies :
    (header : RequestHeader) (s : Stream)
    → Replies header.correlation_id (handle_find_coordinator header s)
find_coordinator-Replies header s = record { always = handle_find_coordinator-IsReply header s }

join_group-Replies :
    (header : RequestHeader) (s : Stream)
    → Replies header.correlation_id (handle_join_group header s)
join_group-Replies header s = record { always = handle_join_group-IsReply header s }

heartbeat-Replies :
    (header : RequestHeader) (s : Stream)
    → Replies header.correlation_id (handle_heartbeat header s)
heartbeat-Replies header s = record { always = handle_heartbeat-IsReply header s }

leave_group-Replies :
    (header : RequestHeader) (s : Stream)
    → Replies header.correlation_id (handle_leave_group header s)
leave_group-Replies header s = record { always = handle_leave_group-IsReply header s }

sync_group-Replies :
    (header : RequestHeader) (s : Stream)
    → Replies header.correlation_id (handle_sync_group header s)
sync_group-Replies header s = record { always = handle_sync_group-IsReply header s }

api_versions-Replies :
    (header : RequestHeader) (s : Stream)
    → Replies header.correlation_id (handle_api_versions header s)
api_versions-Replies header s = record { always = handle_api_versions-IsReply header s }

ruleset replies = (
  if-Replies, unsupported-Replies, produce-Replies, fetch-Replies, list_offsets-Replies,
  metadata-Replies, offset_commit-Replies, offset_fetch-Replies, find_coordinator-Replies,
  join_group-Replies, heartbeat-Replies, leave_group-Replies, sync_group-Replies,
  api_versions-Replies,
)

dispatch-Replies :
    (header : RequestHeader) (s : Stream) → Replies header.correlation_id (dispatch header s)
unfolding dispatch
dispatch-Replies header s = search (replies) depth 20

-- Whatever a request is, whatever the stores hold and whatever the system calls do, the reply of a
-- handler that returns is empty or a single frame: four bytes of length, and behind them as many
-- bytes as they say, modulo 2 ^ 32, which start with the correlation id of the request.
pub dispatch-IsReply :
    (header : RequestHeader) (s : Stream) (os : Os) (h : Handler)
    → Returns (IsReply header.correlation_id) (dispatch header s os h)
dispatch-IsReply header s = (dispatch-Replies header s).always
