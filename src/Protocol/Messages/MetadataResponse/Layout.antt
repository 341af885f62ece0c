-- ===== src/Protocol/Messages/MetadataResponse/Layout.antt =====
-- The parts of the Metadata response: fields that depend on the version, nullable strings, ids.
use kage.Prelude.{
  ℕ, ◌<◌, ◌≡◌, true, Option, none, some, List, [], ◌++◌, append_assoc, append-nil, arith, Bytes,
  length, All, IsU32, wire_all, slt16, if◌then◌else◌, Bool-cases, inl, inr,
}
use kage.Outcome.{ok}
use kage.Binary.{put_uint16, put_uint32}
use kage.Protocol.Encoder.{Encoder, write_int32}
use kage.Protocol.Encoder.Layout.{wire_string, wire_nullable_string, layout, buffer-write_int32}
use kage.Protocol.Decoder.{Parser, ◌>>=◌, read_int32}
use kage.Protocol.Decoder.RoundTrip.{
  reads, read_int16-put_uint16, read_int32-put_uint32, read_bytes-append,
}
use kage.Protocol.Arrays.{U32-small, read_array-wire_all, buffer-write_each}
use kage.Protocol.Messages.MetadataResponse.{since, write_ids}
use kage.Protocol.Messages.MetadataResponse.Client.{from, read_nullable_string, client_ids}

unfoldable pub wire_from : ℕ → ℕ → Bytes → Bytes
wire_from first version w = if slt16 version first then [] else w

pub buffer-since :
    (first version : ℕ) (step : Encoder → Encoder) (w : Bytes) (e : Encoder)
    → (step e).buffer ≡ e.buffer ++ w
    → (since first version step e).buffer ≡ e.buffer ++ wire_from first version w
unfolding since wire_from
buffer-since first version step w e h = elim (Bool-cases (slt16 version first)) [
  | inl old ↦ rw (old, append-nil)
  | inr new ↦ rw new h
]

pub from-wire_from :
    {A : Type 0} (first version : ℕ) (item : Parser A) (absent x : A) (w rest : Bytes)
    → (slt16 version first ≡ true → x ≡ absent)
    → item (w ++ rest) ≡ ok (x, rest)
    → from first version item absent (wire_from first version w ++ rest) ≡ ok (x, rest)
unfolding from wire_from
from-wire_from first version item absent x w rest old new =
    elim (Bool-cases (slt16 version first)) [ inl e ↦ rw (e, old e) | inr e ↦ rw e new ]

abbrev pub NullableFits : Option Bytes → Type 0
NullableFits none = Unit {0}
NullableFits (some s) = length s < 0x8000

pub read_nullable_string-wire :
    (o : Option Bytes) (rest : Bytes)
    → NullableFits o
    → read_nullable_string (wire_nullable_string o ++ rest) ≡ ok (o, rest)
unfolding read_nullable_string wire_nullable_string wire_string
read_nullable_string-wire none rest h = ground (arith, read_int16-put_uint16 0xffff rest)
read_nullable_string-wire (some s) rest h = ground (
  arith,
  append_assoc (put_uint16 (length s)) s rest,
  read_int16-put_uint16 (length s) (s ++ rest),
  read_bytes-append s rest,
)

unfoldable pub wire_ids : List ℕ → Bytes
wire_ids ids = put_uint32 (length ids) ++ wire_all put_uint32 ids

abbrev pub IdsFit : List ℕ → Type 0
IdsFit ids = (length ids < 0x8000_0000) × All IsU32 ids

pub buffer-write_ids :
    (ids : List ℕ) (e : Encoder) → (write_ids ids e).buffer ≡ e.buffer ++ wire_ids ids
unfolding write_ids wire_ids
buffer-write_ids ids e = simp (layout, buffer-write_each put_uint32 write_int32 buffer-write_int32)

pub client_ids-wire_ids :
    (ids : List ℕ) (rest : Bytes) → IdsFit ids → client_ids (wire_ids ids ++ rest) ≡ ok (ids, rest)
unfolding client_ids wire_ids
client_ids-wire_ids ids rest (n, f) = simp (
  append_assoc,
  reads,
  ◌>>=◌,
  U32-small _ n,
  read_array-wire_all put_uint32 read_int32 IsU32 read_int32-put_uint32 ids rest n f,
)
