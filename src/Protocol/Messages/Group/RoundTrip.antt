-- ===== src/Protocol/Messages/Group/RoundTrip.antt =====
-- The requests to the group coordinator on the wire are read back.
use kage.Prelude.{
  ◌<◌, ◌≡◌, sym, ap, ◌∙◌, [], ◌∷◌, ◌++◌, append_assoc, arith, Bytes, length, All, IsU32, wire_all,
}
use kage.Outcome.{ok}
use kage.Binary.{put_uint32}
use kage.Protocol.Encoder.Layout.{wire_string}
use kage.Protocol.Decoder.{◌>>=◌}
use kage.Protocol.Decoder.RoundTrip.{reads, read_int32-put_uint32, read_bytes-append}
use kage.Protocol.Arrays.{U32-small, read_array-wire_all}
use kage.Protocol.Messages.Group.{
  JoinGroupProtocol, JoinGroupRequest, SyncGroupAssignment, SyncGroupRequest, read_sized,
  parse_join_protocol, parse_join_group_request, parse_sync_assignment, parse_sync_group_request,
}

-- Bytes behind their length as an int32.
unfoldable pub wire_sized : Bytes → Bytes
wire_sized b = put_uint32 (length b) ++ b

pub read_sized-wire_sized :
    (b rest : Bytes) → length b < 0x8000_0000 → read_sized (wire_sized b ++ rest) ≡ ok (b, rest)
unfolding read_sized wire_sized
read_sized-wire_sized [] rest h =
    ground (arith, append_assoc (put_uint32 0) [] rest, read_int32-put_uint32 0 rest)
read_sized-wire_sized (x ∷ b) rest h = ground (
  arith,
  append_assoc (put_uint32 (length (x ∷ b))) (x ∷ b) rest,
  read_int32-put_uint32 (length (x ∷ b)) ((x ∷ b) ++ rest),
  read_bytes-append (x ∷ b) rest,
)

-- The same with the concatenation bracketed to the right.
pub read_sized-append :
    (b rest : Bytes)
    → length b < 0x8000_0000
    → read_sized (put_uint32 (length b) ++ (b ++ rest)) ≡ ok (b, rest)
unfolding wire_sized
read_sized-append b rest h =
    ap read_sized (sym (append_assoc (put_uint32 (length b)) b rest))
    ∙ read_sized-wire_sized b rest h

unfoldable pub wire_join_protocol : JoinGroupProtocol → Bytes
wire_join_protocol p = wire_string p.name ++ wire_sized p.metadata

unfoldable pub wire_join_group_request : JoinGroupRequest → Bytes
wire_join_group_request r =
    wire_string r.group_id
    ++ (put_uint32 r.session_timeout_ms
        ++ (put_uint32 r.rebalance_timeout_ms
            ++ (wire_string r.member_id
                ++ (wire_string r.protocol_type
                    ++ (put_uint32 (length r.protocols)
                        ++ wire_all wire_join_protocol r.protocols)))))

pub record ProtocolFits (p : JoinGroupProtocol) : Type 0 where
  pub name : length p.name < 0x8000
  pub metadata : length p.metadata < 0x8000_0000

pub record JoinFits (r : JoinGroupRequest) : Type 0 where
  pub group_id : length r.group_id < 0x8000
  pub session_timeout_ms : IsU32 r.session_timeout_ms
  pub rebalance_timeout_ms : IsU32 r.rebalance_timeout_ms
  pub member_id : length r.member_id < 0x8000
  pub protocol_type : length r.protocol_type < 0x8000
  pub protocol_count : length r.protocols < 0x8000_0000
  pub protocols : All ProtocolFits r.protocols

parse_join_protocol-wire :
    (p : JoinGroupProtocol) (rest : Bytes)
    → ProtocolFits p
    → parse_join_protocol (wire_join_protocol p ++ rest) ≡ ok (p, rest)
unfolding parse_join_protocol wire_join_protocol
parse_join_protocol-wire p rest f =
    simp (append_assoc, reads, read_sized-wire_sized, ◌>>=◌, f.name, f.metadata)

-- A JoinGroup request that fits the format is read back as it was sent, whatever follows it.
pub parse_join_group_request-wire :
    (r : JoinGroupRequest) (rest : Bytes)
    → JoinFits r
    → parse_join_group_request (wire_join_group_request r ++ rest) ≡ ok (r, rest)
unfolding parse_join_group_request wire_join_group_request
parse_join_group_request-wire r rest f = simp (
  append_assoc,
  reads,
  ◌>>=◌,
  f.group_id,
  f.session_timeout_ms,
  f.rebalance_timeout_ms,
  f.member_id,
  f.protocol_type,
  U32-small _ f.protocol_count,
  read_array-wire_all wire_join_protocol parse_join_protocol ProtocolFits parse_join_protocol-wire
      r.protocols rest f.protocol_count f.protocols,
)

unfoldable pub wire_sync_assignment : SyncGroupAssignment → Bytes
wire_sync_assignment a = wire_string a.member_id ++ wire_sized a.assignment

unfoldable pub wire_sync_group_request : SyncGroupRequest → Bytes
wire_sync_group_request r =
    wire_string r.group_id
    ++ (put_uint32 r.generation_id
        ++ (wire_string r.member_id
            ++ (put_uint32 (length r.assignments) ++ wire_all wire_sync_assignment r.assignments)))

pub record AssignmentFits (a : SyncGroupAssignment) : Type 0 where
  pub member_id : length a.member_id < 0x8000
  pub assignment : length a.assignment < 0x8000_0000

pub record SyncFits (r : SyncGroupRequest) : Type 0 where
  pub group_id : length r.group_id < 0x8000
  pub generation_id : IsU32 r.generation_id
  pub member_id : length r.member_id < 0x8000
  pub assignment_count : length r.assignments < 0x8000_0000
  pub assignments : All AssignmentFits r.assignments

parse_sync_assignment-wire :
    (a : SyncGroupAssignment) (rest : Bytes)
    → AssignmentFits a
    → parse_sync_assignment (wire_sync_assignment a ++ rest) ≡ ok (a, rest)
unfolding parse_sync_assignment wire_sync_assignment
parse_sync_assignment-wire a rest f =
    simp (append_assoc, reads, read_sized-wire_sized, ◌>>=◌, f.member_id, f.assignment)

-- A SyncGroup request that fits the format is read back as it was sent, whatever follows it.
pub parse_sync_group_request-wire :
    (r : SyncGroupRequest) (rest : Bytes)
    → SyncFits r
    → parse_sync_group_request (wire_sync_group_request r ++ rest) ≡ ok (r, rest)
unfolding parse_sync_group_request wire_sync_group_request
parse_sync_group_request-wire r rest f = simp (
  append_assoc,
  reads,
  ◌>>=◌,
  f.group_id,
  f.generation_id,
  f.member_id,
  U32-small _ f.assignment_count,
  read_array-wire_all wire_sync_assignment parse_sync_assignment AssignmentFits
      parse_sync_assignment-wire r.assignments rest f.assignment_count f.assignments,
)
