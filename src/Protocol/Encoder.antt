-- ===== src/Protocol/Encoder.antt =====
-- internal/protocol/encoder.go: an encoder is the buffer of the bytes written so far, and each
-- method returns the new buffer.
pub mod Layout
pub mod Starts
use kage.Prelude.{ℕ, ◌%◌, Option, none, some, List, [], ◌∷◌, ◌++◌, Bytes, length}
use kage.Binary.{put_uint16, put_uint32, put_uint64}

pub record Encoder : Type 0 where
  pub buffer : Bytes

unfoldable pub new_encoder : Encoder
new_encoder = record { buffer = [] }

unfoldable pub write_int32 : Encoder → ℕ → Encoder
write_int32 e value = record { buffer = e.buffer ++ put_uint32 value }

unfoldable pub write_int16 : Encoder → ℕ → Encoder
write_int16 e value = record { buffer = e.buffer ++ put_uint16 value }

unfoldable pub write_int64 : Encoder → ℕ → Encoder
write_int64 e value = record { buffer = e.buffer ++ put_uint64 value }

unfoldable pub write_int8 : Encoder → ℕ → Encoder
write_int8 e value = record { buffer = e.buffer ++ (value % 0x100) ∷ [] }

-- The length is narrowed to an int16, which the remainder of `put_uint16` does.
unfoldable pub write_string : Encoder → Bytes → Encoder
unfolding write_int16
write_string e value = record { buffer = (write_int16 e (length value)).buffer ++ value }

-- -1 is 0xffff as an int16.
unfoldable pub write_nullable_string : Encoder → Option Bytes → Encoder
unfolding write_int16 write_string
write_nullable_string e none = write_int16 e 0xffff
write_nullable_string e (some value) = write_string e value

unfoldable pub write_bytes : Encoder → Bytes → Encoder
write_bytes e value = record { buffer = e.buffer ++ value }

unfoldable pub bytes : Encoder → Bytes
bytes e = e.buffer

unfoldable pub full_message : Encoder → Bytes
full_message e = put_uint32 (length e.buffer) ++ e.buffer
