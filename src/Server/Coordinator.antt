-- ===== src/Server/Coordinator.antt =====
-- The handlers of internal/server/handler.go that keep no state: the group coordinator, which
-- knows one member alone, and `handleApiVersions`.
use kage.Prelude.{List, [], ◌∷◌, Bytes, bytes_eq, if◌then◌else◌}
use kage.Protocol.Decoder.{Stream}
use kage.Protocol.Encoder.{new_encoder, full_message}
use kage.Protocol.Messages.ApiVersions.{encode_api_versions_response}
use kage.Protocol.Messages.Header.{RequestHeader}
use kage.Protocol.Messages.Group.{
  JoinGroupProtocol, JoinGroupRequest, JoinGroupMember, SyncGroupAssignment, SyncGroupRequest,
  parse_find_coordinator_request, encode_find_coordinator_response, parse_join_group_request,
  encode_join_group_response, parse_heartbeat_request, encode_heartbeat_response,
  parse_leave_group_request, encode_leave_group_response, parse_sync_group_request,
  encode_sync_group_response,
}
use kage.Server.Run.{Run, ◌>>=◌, pure, parsed, Reply}

unfoldable pub handle_api_versions : RequestHeader → Stream → Run Reply
handle_api_versions header s =
    pure (full_message (encode_api_versions_response new_encoder header.correlation_id), s)

-- "kage-member-1"
abbrev pub dummy_member_id : Bytes
dummy_member_id =
    b'k' ∷ b'a' ∷ b'g' ∷ b'e' ∷ b'-' ∷ b'm' ∷ b'e' ∷ b'm' ∷ b'b' ∷ b'e' ∷ b'r' ∷ b'-' ∷ b'1' ∷ []

unfoldable pub handle_find_coordinator : RequestHeader → Stream → Run Reply
handle_find_coordinator header s = do
  (_, s') ← parsed (parse_find_coordinator_request s)
  λ os h.
      pure
        (
          full_message
              (encode_find_coordinator_response new_encoder header.correlation_id 1 h.host 9092),
          s',
        )
        os h

-- The first protocol that is offered, if there is one.
unfoldable pub chosen : List JoinGroupProtocol → JoinGroupProtocol
chosen [] = record { name = []; metadata = [] }
chosen (p ∷ _) = p

unfoldable pub join_reply : RequestHeader → JoinGroupRequest → Bytes
join_reply header req =
    let p = chosen req.protocols in
    let member : JoinGroupMember = record { member_id = dummy_member_id; metadata = p.metadata } in
    full_message (
      encode_join_group_response new_encoder header.correlation_id 1 p.name dummy_member_id
        dummy_member_id (member ∷ []))

unfoldable pub handle_join_group : RequestHeader → Stream → Run Reply
handle_join_group header s = do
  (req, s') ← parsed (parse_join_group_request s)
  pure (join_reply header req, s')

unfoldable pub handle_heartbeat : RequestHeader → Stream → Run Reply
handle_heartbeat header s = do
  (_, s') ← parsed (parse_heartbeat_request s)
  pure (full_message (encode_heartbeat_response new_encoder header.correlation_id), s')

unfoldable pub handle_leave_group : RequestHeader → Stream → Run Reply
handle_leave_group header s = do
  (_, s') ← parsed (parse_leave_group_request s)
  pure (full_message (encode_leave_group_response new_encoder header.correlation_id), s')

-- The first assignment to the one member, or an empty one.
unfoldable pub find_assignment : List SyncGroupAssignment → Bytes
find_assignment [] = []
find_assignment (a ∷ rest) =
    if bytes_eq a.member_id dummy_member_id then a.assignment else find_assignment rest

unfoldable pub sync_reply : RequestHeader → SyncGroupRequest → Bytes
sync_reply header req =
    full_message (
      encode_sync_group_response new_encoder header.correlation_id
        (find_assignment req.assignments))

unfoldable pub handle_sync_group : RequestHeader → Stream → Run Reply
handle_sync_group header s = do
  (req, s') ← parsed (parse_sync_group_request s)
  pure (sync_reply header req, s')
