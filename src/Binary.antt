-- ===== src/Binary.antt =====
-- Go's encoding/binary.BigEndian, as the protocol, the storage and the offset records use it.
pub mod RoundTrip
use kage.Prelude.{ℕ, ◌+◌, ◌*◌, ◌/◌, ◌%◌, List, [], ◌∷◌, ◌++◌, Bytes}

-- `PutUint16`, `PutUint32` and `PutUint64`: the bytes that are written, the highest first.
unfoldable pub put_uint16 : ℕ → Bytes
put_uint16 v = (v / 0x100 % 0x100) ∷ (v % 0x100) ∷ []

unfoldable pub put_uint32 : ℕ → Bytes
unfolding put_uint16
put_uint32 v = put_uint16 (v / 0x1_0000) ++ put_uint16 v

unfoldable pub put_uint64 : ℕ → Bytes
unfolding put_uint32
put_uint64 v = put_uint32 (v / 0x1_0000_0000) ++ put_uint32 v

-- `Uint16`, `Uint32` and `Uint64` of the bytes at the front. A slice that is too short panics in
-- Go; the callers test the length first, or read through the functions of Slice, which have the panic.
unfoldable pub uint8 : Bytes → ℕ
uint8 (a ∷ _) = a
uint8 [] = 0

unfoldable pub uint16 : Bytes → ℕ
uint16 (a ∷ b ∷ _) = a * 0x100 + b
uint16 _ = 0

unfoldable pub uint32 : Bytes → ℕ
unfolding uint16
uint32 (a ∷ b ∷ c ∷ d ∷ _) = uint16 (a ∷ b ∷ []) * 0x1_0000 + uint16 (c ∷ d ∷ [])
uint32 _ = 0

unfoldable pub uint64 : Bytes → ℕ
unfolding uint32
uint64 (a ∷ b ∷ c ∷ d ∷ e ∷ f ∷ g ∷ h ∷ _) =
    uint32 (a ∷ b ∷ c ∷ d ∷ []) * 0x1_0000_0000 + uint32 (e ∷ f ∷ g ∷ h ∷ [])
uint64 _ = 0
