-- ===== src/Protocol/Messages/Group/Client.antt =====
-- What a client reads from the responses of the group coordinator.
use kage.Prelude.{ℕ, ◌<◌, ◌≡◌, List, [], ◌++◌, append_assoc, arith, Bytes, length, All, IsU32}
use kage.Outcome.{ok}
use kage.Binary.{put_uint16}
use kage.Protocol.Encoder.{Encoder}
use kage.Protocol.Encoder.Layout.{wire_string, layout}
use kage.Protocol.Decoder.{Parser, ◌>>=◌, pure, read_int16, read_int32, read_string}
use kage.Protocol.Decoder.RoundTrip.{reads, read_int16-put_uint16}
use kage.Protocol.Arrays.{U32-small, read_array, read_array-wire_all, buffer-write_each}
use kage.Protocol.Messages.Group.{
  JoinGroupMember, read_sized, write_join_member, encode_join_group_response,
  encode_sync_group_response,
}
use kage.Protocol.Messages.Group.RoundTrip.{wire_sized, read_sized-wire_sized, read_sized-append}

-- The fields of a JoinGroup response, in the order of the Kafka protocol.
pub record JoinGroupResponse : Type 0 where
  pub correlation_id : ℕ
  pub error_code : ℕ
  pub generation_id : ℕ
  pub protocol_name : Bytes
  pub leader : Bytes
  pub member_id : Bytes
  pub members : List JoinGroupMember

unfoldable pub client_join_member : Parser JoinGroupMember
client_join_member = do
  member_id ← read_string
  metadata ← read_sized
  pure (record { member_id = member_id; metadata = metadata })

unfoldable pub client_join_group : Parser JoinGroupResponse
client_join_group = do
  correlation_id ← read_int32
  error_code ← read_int16
  generation_id ← read_int32
  protocol_name ← read_string
  leader ← read_string
  member_id ← read_string
  count ← read_int32
  members ← read_array count client_join_member
  pure (record {
    correlation_id = correlation_id;
    error_code = error_code;
    generation_id = generation_id;
    protocol_name = protocol_name;
    leader = leader;
    member_id = member_id;
    members = members;
  })

pub record MemberFits (m : JoinGroupMember) : Type 0 where
  pub member_id : length m.member_id < 0x8000
  pub metadata : length m.metadata < 0x8000_0000

unfoldable wire_join_member : JoinGroupMember → Bytes
wire_join_member m = wire_string m.member_id ++ wire_sized m.metadata

buffer-write_join_member :
    (e : Encoder) (m : JoinGroupMember)
    → (write_join_member e m).buffer ≡ e.buffer ++ wire_join_member m
unfolding write_join_member wire_join_member wire_sized
buffer-write_join_member e m = simp layout

client_join_member-wire_join_member :
    (m : JoinGroupMember) (rest : Bytes)
    → MemberFits m
    → client_join_member (wire_join_member m ++ rest) ≡ ok (m, rest)
unfolding client_join_member wire_join_member
client_join_member-wire_join_member m rest f =
    simp (append_assoc, reads, read_sized-wire_sized, ◌>>=◌, f.member_id, f.metadata)

read_no_error : (rest : Bytes) → read_int16 (put_uint16 0 ++ rest) ≡ ok (0, rest)
read_no_error rest = read_int16-put_uint16 0 rest (omega arith)

-- The client reads what was encoded into an empty buffer.
pub client_join_group-encode_join_group_response :
    (e : Encoder) (id generation_id : ℕ) (protocol_name leader member_id : Bytes)
    (members : List JoinGroupMember) (rest : Bytes)
    → e.buffer ≡ []
    → IsU32 id
    → IsU32 generation_id
    → length protocol_name < 0x8000
    → length leader < 0x8000
    → length member_id < 0x8000
    → length members < 0x8000_0000
    → All MemberFits members
    → client_join_group (
        (encode_join_group_response e id generation_id protocol_name leader member_id
          members).buffer
        ++ rest)
      ≡ ok (
        record {
          correlation_id = id;
          error_code = 0;
          generation_id = generation_id;
          protocol_name = protocol_name;
          leader = leader;
          member_id = member_id;
          members = members;
        },
        rest,
      )
unfolding encode_join_group_response client_join_group
client_join_group-encode_join_group_response e id gen name leader member members rest empty a b c d
      f g h =
    simp (
      layout,
      buffer-write_each wire_join_member write_join_member buffer-write_join_member,
      empty,
      reads,
      read_no_error,
      ◌>>=◌,
      a,
      b,
      c,
      d,
      f,
      U32-small _ g,
      read_array-wire_all wire_join_member client_join_member MemberFits
          client_join_member-wire_join_member members rest g h,
    )

-- The correlation id, the error code and the assignment of a SyncGroup response.
unfoldable pub client_sync_group : Parser (ℕ × ℕ × Bytes)
client_sync_group = do
  correlation_id ← read_int32
  error_code ← read_int16
  assignment ← read_sized
  pure (correlation_id, error_code, assignment)

pub client_sync_group-encode_sync_group_response :
    (e : Encoder) (id : ℕ) (assignment rest : Bytes)
    → e.buffer ≡ []
    → IsU32 id
    → length assignment < 0x8000_0000
    → client_sync_group ((encode_sync_group_response e id assignment).buffer ++ rest)
      ≡ ok ((id, 0, assignment), rest)
unfolding encode_sync_group_response client_sync_group
client_sync_group-encode_sync_group_response e id assignment rest empty a b =
    simp (layout, empty, reads, read_no_error, read_sized-append, ◌>>=◌, a, b)
