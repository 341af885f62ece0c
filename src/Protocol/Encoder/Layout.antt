-- ===== src/Protocol/Encoder/Layout.antt =====
-- What each method of the encoder adds to the buffer.
use kage.Prelude.{
  ℕ, ◌%◌, ◌≡◌, refl, Option, none, some, List, [], ◌∷◌, ◌++◌, append_assoc, Bytes, length,
}
use kage.Binary.{put_uint16, put_uint32, put_uint64}
use kage.Protocol.Encoder.{
  Encoder, write_int8, write_int16, write_int32, write_int64, write_string, write_nullable_string,
  write_bytes, new_encoder,
}

-- A string on the wire: its length as an int16, then its bytes.
unfoldable pub wire_string : Bytes → Bytes
wire_string s = put_uint16 (length s) ++ s

unfoldable pub wire_nullable_string : Option Bytes → Bytes
wire_nullable_string none = put_uint16 0xffff
wire_nullable_string (some s) = wire_string s

pub buffer-new_encoder : new_encoder.buffer ≡ []
unfolding new_encoder
buffer-new_encoder = refl

pub buffer-write_int8 :
    (e : Encoder) (v : ℕ) → (write_int8 e v).buffer ≡ e.buffer ++ (v % 0x100) ∷ []
unfolding write_int8
buffer-write_int8 e v = refl

pub buffer-write_int16 : (e : Encoder) (v : ℕ) → (write_int16 e v).buffer ≡ e.buffer ++ put_uint16 v
unfolding write_int16
buffer-write_int16 e v = refl

pub buffer-write_int32 : (e : Encoder) (v : ℕ) → (write_int32 e v).buffer ≡ e.buffer ++ put_uint32 v
unfolding write_int32
buffer-write_int32 e v = refl

pub buffer-write_int64 : (e : Encoder) (v : ℕ) → (write_int64 e v).buffer ≡ e.buffer ++ put_uint64 v
unfolding write_int64
buffer-write_int64 e v = refl

pub buffer-write_bytes : (e : Encoder) (b : Bytes) → (write_bytes e b).buffer ≡ e.buffer ++ b
unfolding write_bytes
buffer-write_bytes e b = refl

pub buffer-write_string :
    (e : Encoder) (s : Bytes) → (write_string e s).buffer ≡ e.buffer ++ wire_string s
unfolding write_string wire_string
buffer-write_string e s = append_assoc e.buffer (put_uint16 (length s)) s

pub buffer-write_nullable_string :
    (e : Encoder) (o : Option Bytes)
    → (write_nullable_string e o).buffer ≡ e.buffer ++ wire_nullable_string o
unfolding write_nullable_string wire_nullable_string
buffer-write_nullable_string e none = refl
buffer-write_nullable_string e (some s) = buffer-write_string e s

-- Brings the buffer of any sequence of writes into the form of one concatenation.
pub ruleset layout = (
  buffer-new_encoder, buffer-write_int8, buffer-write_int16, buffer-write_int32, buffer-write_int64,
  buffer-write_bytes, buffer-write_string, buffer-write_nullable_string, append_assoc,
)
