-- ===== src/Protocol/Messages/Group.antt =====
-- The messages of the group coordinator: FindCoordinator, JoinGroup, Heartbeat, LeaveGroup and
-- SyncGroup. No parser of them uses the header.
pub mod RoundTrip
pub mod Client
use kage.Prelude.{ℕ, ◌||◌, not, List, [], Bytes, length, is_neg32, ◌==◌, if◌then◌else◌}
use kage.Protocol.Encoder.{Encoder, write_int16, write_int32, write_string, write_bytes}
use kage.Protocol.Decoder.{Parser, ◌>>=◌, pure, read_int32, read_bytes, read_string}
use kage.Protocol.Arrays.{read_array, write_each}
use kage.Protocol.Messages.Constants.{err_code_none}

pub record FindCoordinatorRequest : Type 0 where
  pub key : Bytes

unfoldable pub parse_find_coordinator_request : Parser FindCoordinatorRequest
parse_find_coordinator_request = do key ← read_string; pure (record { key = key })

unfoldable pub encode_find_coordinator_response : Encoder → ℕ → ℕ → Bytes → ℕ → Encoder
encode_find_coordinator_response e correlation_id node_id host port =
    let e1 = write_int32 e correlation_id in
    let e2 = write_int16 e1 err_code_none in
    let e3 = write_int32 e2 node_id in let e4 = write_string e3 host in write_int32 e4 port

pub record JoinGroupProtocol : Type 0 where
  pub name : Bytes
  pub metadata : Bytes

pub record JoinGroupRequest : Type 0 where
  pub protocols : List JoinGroupProtocol
  pub group_id : Bytes
  pub member_id : Bytes
  pub protocol_type : Bytes
  pub session_timeout_ms : ℕ
  pub rebalance_timeout_ms : ℕ

-- Bytes behind an int32 length, which are read only if it is positive; a nil slice is an empty one.
unfoldable pub read_sized : Parser Bytes
read_sized = do size ← read_int32; if is_neg32 size || size == 0 then pure [] else read_bytes size

unfoldable pub parse_join_protocol : Parser JoinGroupProtocol
parse_join_protocol = do
  name ← read_string
  metadata ← read_sized
  pure (record { name = name; metadata = metadata })

unfoldable pub parse_join_group_request : Parser JoinGroupRequest
parse_join_group_request = do
  group_id ← read_string
  session_timeout_ms ← read_int32
  rebalance_timeout_ms ← read_int32
  member_id ← read_string
  protocol_type ← read_string
  proto_count ← read_int32
  protocols ← read_array proto_count parse_join_protocol
  pure (record {
    group_id = group_id;
    session_timeout_ms = session_timeout_ms;
    rebalance_timeout_ms = rebalance_timeout_ms;
    member_id = member_id;
    protocol_type = protocol_type;
    protocols = protocols;
  })

pub record JoinGroupMember : Type 0 where
  pub member_id : Bytes
  pub metadata : Bytes

unfoldable pub write_join_member : Encoder → JoinGroupMember → Encoder
write_join_member e m =
    let e1 = write_string e m.member_id in
    let e2 = write_int32 e1 (length m.metadata) in write_bytes e2 m.metadata

unfoldable pub encode_join_group_response :
    Encoder → ℕ → ℕ → Bytes → Bytes → Bytes → List JoinGroupMember → Encoder
encode_join_group_response e correlation_id generation_id protocol_name leader member_id members =
    let e1 = write_int32 e correlation_id in
    let e2 = write_int16 e1 err_code_none in
    let e3 = write_int32 e2 generation_id in
    let e4 = write_string e3 protocol_name in
    let e5 = write_string e4 leader in
    let e6 = write_string e5 member_id in
    let e7 = write_int32 e6 (length members) in write_each write_join_member e7 members

pub record HeartbeatRequest : Type 0 where
  pub group_id : Bytes
  pub member_id : Bytes
  pub generation_id : ℕ

unfoldable pub parse_heartbeat_request : Parser HeartbeatRequest
parse_heartbeat_request = do
  group_id ← read_string
  generation_id ← read_int32
  member_id ← read_string
  pure (record { group_id = group_id; generation_id = generation_id; member_id = member_id })

unfoldable pub encode_heartbeat_response : Encoder → ℕ → Encoder
encode_heartbeat_response e correlation_id =
    let e1 = write_int32 e correlation_id in write_int16 e1 err_code_none

pub record LeaveGroupRequest : Type 0 where
  pub group_id : Bytes
  pub member_id : Bytes

unfoldable pub parse_leave_group_request : Parser LeaveGroupRequest
parse_leave_group_request = do
  group_id ← read_string
  member_id ← read_string
  pure (record { group_id = group_id; member_id = member_id })

unfoldable pub encode_leave_group_response : Encoder → ℕ → Encoder
encode_leave_group_response e correlation_id =
    let e1 = write_int32 e correlation_id in write_int16 e1 err_code_none

pub record SyncGroupAssignment : Type 0 where
  pub member_id : Bytes
  pub assignment : Bytes

pub record SyncGroupRequest : Type 0 where
  pub assignments : List SyncGroupAssignment
  pub group_id : Bytes
  pub member_id : Bytes
  pub generation_id : ℕ

unfoldable pub parse_sync_assignment : Parser SyncGroupAssignment
parse_sync_assignment = do
  member_id ← read_string
  assignment ← read_sized
  pure (record { member_id = member_id; assignment = assignment })

unfoldable pub parse_sync_group_request : Parser SyncGroupRequest
parse_sync_group_request = do
  group_id ← read_string
  generation_id ← read_int32
  member_id ← read_string
  assign_count ← read_int32
  assignments ← read_array assign_count parse_sync_assignment
  pure (record {
    group_id = group_id;
    generation_id = generation_id;
    member_id = member_id;
    assignments = assignments;
  })

unfoldable pub encode_sync_group_response : Encoder → ℕ → Bytes → Encoder
encode_sync_group_response e correlation_id assignment =
    let e1 = write_int32 e correlation_id in
    let e2 = write_int16 e1 err_code_none in
    let e3 = write_int32 e2 (length assignment) in write_bytes e3 assignment
