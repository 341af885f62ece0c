-- ===== src/Protocol/Decoder/RoundTrip.antt =====
-- Each reading method takes back what the writing method of the encoder added.
use kage.Prelude.{
  ℕ, ◌<◌, ◌≡◌, refl, not, [], ◌∷◌, ◌++◌, append_assoc, arith, Bytes, length, length-append,
  take-append_left, drop-append_left, append-nil, IsU16, IsU32, IsU64, ◌==◌,
}
use kage.Outcome.{ok}
use kage.Binary.{uint8, put_uint16, put_uint32, put_uint64}
use kage.Binary.RoundTrip.{
  uint16-put_uint16, uint32-put_uint32, uint64-put_uint64, length-put_uint16, length-put_uint32,
  length-put_uint64,
}
use kage.Protocol.Encoder.Layout.{wire_string}
use kage.Protocol.Decoder.{
  read_full, read_int8, read_int16, read_int32, read_int64, read_bytes, read_string, read_bool,
}

pub read_full-append :
    (b rest : Bytes) (n : ℕ) → length b ≡ n → read_full n (b ++ rest) ≡ ok (b, rest)
unfolding read_full
read_full-append b rest n h =
    rw (← h)
      (ground (arith, length-append b rest, take-append_left b rest, drop-append_left b rest))

pub read_int32-put_uint32 :
    (v : ℕ) (rest : Bytes) → IsU32 v → read_int32 (put_uint32 v ++ rest) ≡ ok (v, rest)
unfolding read_int32
read_int32-put_uint32 v rest h = ground (
  arith,
  read_full-append (put_uint32 v) rest 4 (length-put_uint32 v),
  uint32-put_uint32 v [],
  append-nil (put_uint32 v),
)

pub read_int16-put_uint16 :
    (v : ℕ) (rest : Bytes) → IsU16 v → read_int16 (put_uint16 v ++ rest) ≡ ok (v, rest)
unfolding read_int16
read_int16-put_uint16 v rest h = ground (
  arith,
  read_full-append (put_uint16 v) rest 2 (length-put_uint16 v),
  uint16-put_uint16 v [],
  append-nil (put_uint16 v),
)

pub read_int64-put_uint64 :
    (v : ℕ) (rest : Bytes) → IsU64 v → read_int64 (put_uint64 v ++ rest) ≡ ok (v, rest)
unfolding read_int64
read_int64-put_uint64 v rest h = ground (
  arith,
  read_full-append (put_uint64 v) rest 8 (length-put_uint64 v),
  uint64-put_uint64 v [],
  append-nil (put_uint64 v),
)

pub read_int8-byte : (v : ℕ) (rest : Bytes) → read_int8 (v ∷ rest) ≡ ok (v, rest)
unfolding read_int8 uint8
read_int8-byte v rest = ground (arith, read_full-append (v ∷ []) rest 1 refl)

pub read_bool-byte : (v : ℕ) (rest : Bytes) → read_bool (v ∷ rest) ≡ ok (not (v == 0), rest)
unfolding read_bool
read_bool-byte v rest = ground (arith, read_int8-byte v rest)

-- A positive count that fits an `int`.
pub read_bytes-append :
    (b rest : Bytes)
    → length b < 0x8000_0000_0000_0000
    → read_bytes (length b) (b ++ rest) ≡ ok (b, rest)
unfolding read_bytes
read_bytes-append [] rest h = refl
read_bytes-append (x ∷ b) rest h =
    ground (arith, read_full-append (x ∷ b) rest (length (x ∷ b)) refl)

-- A string survives if its length is below 2 ^ 15, where the int16 of its length stays positive.
pub read_string-wire_string :
    (s rest : Bytes) → length s < 0x8000 → read_string (wire_string s ++ rest) ≡ ok (s, rest)
unfolding read_string wire_string
read_string-wire_string [] rest h =
    ground (arith, read_int16-put_uint16 0 rest, append_assoc (put_uint16 0) [] rest)
read_string-wire_string (x ∷ s) rest h = ground (
  arith,
  read_int16-put_uint16 (length (x ∷ s)) ((x ∷ s) ++ rest),
  append_assoc (put_uint16 (length (x ∷ s))) (x ∷ s) rest,
  read_bytes-append (x ∷ s) rest,
)

pub ruleset reads = (
  read_int16-put_uint16, read_int32-put_uint32, read_int64-put_uint64, read_int8-byte,
  read_bool-byte, read_bytes-append, read_string-wire_string,
)
