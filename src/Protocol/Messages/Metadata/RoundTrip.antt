-- ===== src/Protocol/Messages/Metadata/RoundTrip.antt =====
-- A Metadata request on the wire is read back.
use kage.Prelude.{
  ℕ, ◌<◌, ◌≡◌, [], ◌∷◌, ◌++◌, append_assoc, arith, Bytes, length, All, wire_all, slt16,
  if◌then◌else◌,
}
use kage.Outcome.{ok}
use kage.Binary.{put_uint32}
use kage.Protocol.Encoder.Layout.{wire_string}
use kage.Protocol.Decoder.{◌>>=◌, read_string}
use kage.Protocol.Decoder.RoundTrip.{reads, read_bool-byte, read_string-wire_string}
use kage.Protocol.Arrays.{U32-small, read_array-wire_all}
use kage.Protocol.Messages.Header.{RequestHeader}
use kage.Protocol.Messages.Metadata.{MetadataRequest, skip_auto_creation, parse_metadata_request}

-- The flag is there from version 4 on.
unfoldable pub wire_auto_creation : RequestHeader → ℕ → Bytes
wire_auto_creation header flag = if slt16 header.api_version 4 then [] else flag ∷ []

unfoldable pub wire_metadata_request : MetadataRequest → ℕ → Bytes
wire_metadata_request r flag =
    put_uint32 (length r.topics)
    ++ (wire_all wire_string r.topics ++ wire_auto_creation r.header flag)

abbrev pub TopicFits : Bytes → Type 0
TopicFits name = length name < 0x8000

pub record RequestFits (r : MetadataRequest) : Type 0 where
  pub topic_count : length r.topics < 0x8000_0000
  pub topics : All TopicFits r.topics

skip_auto_creation-wire :
    (header : RequestHeader) (flag : ℕ) (rest : Bytes)
    → skip_auto_creation header (wire_auto_creation header flag ++ rest) ≡ ok (tt, rest)
unfolding skip_auto_creation wire_auto_creation
skip_auto_creation-wire header flag rest = ground (arith, read_bool-byte flag rest)

-- A Metadata request of any version whose topics fit the format is read back as it was sent,
-- whatever flag it carries from version 4 on and whatever follows it.
pub parse_metadata_request-wire :
    (r : MetadataRequest) (flag : ℕ) (rest : Bytes)
    → RequestFits r
    → parse_metadata_request r.header (wire_metadata_request r flag ++ rest) ≡ ok (r, rest)
unfolding parse_metadata_request wire_metadata_request
parse_metadata_request-wire r flag rest f = simp (
  append_assoc,
  reads,
  ◌>>=◌,
  U32-small _ f.topic_count,
  read_array-wire_all wire_string read_string TopicFits read_string-wire_string r.topics
      (wire_auto_creation r.header flag ++ rest) f.topic_count f.topics,
  skip_auto_creation-wire,
)
