-- ===== src/Slice.antt =====
-- Go's slice expressions and the reads of encoding/binary, with their panics. Each slice of the
-- program that is cut or read here comes from a `make` of its length or from such a cut, and none
-- is read past its length: the capacity beyond the length is not modelled.
pub mod Laws
use kage.Prelude.{ℕ, ◌-◌, ◌&&◌, [], ◌∷◌, Bytes, length, take, drop, leb, ltb, if◌then◌else◌}
use kage.Outcome.{Outcome, ok, panic}
use kage.Binary

module _ {E : Type 0} where
  -- b[i]
  unfoldable pub byte_at : ℕ → Bytes → Outcome E ℕ
  byte_at i b = elim (drop i b) [ [] ↦ panic | x ∷ _ ↦ ok x ]

  -- b[lo:hi]
  unfoldable pub slice : ℕ → ℕ → Bytes → Outcome E Bytes
  slice lo hi b = if leb lo hi && leb hi (length b) then ok (take (hi - lo) (drop lo b)) else panic

  -- b[lo:]
  unfoldable pub slice_from : ℕ → Bytes → Outcome E Bytes
  slice_from lo b = if leb lo (length b) then ok (drop lo b) else panic

  -- binary.BigEndian.Uint16(b), Uint32(b) and Uint64(b)
  unfoldable pub uint16 : Bytes → Outcome E ℕ
  uint16 b = if ltb (length b) 2 then panic else ok (Binary.uint16 b)

  unfoldable pub uint32 : Bytes → Outcome E ℕ
  uint32 b = if ltb (length b) 4 then panic else ok (Binary.uint32 b)

  unfoldable pub uint64 : Bytes → Outcome E ℕ
  uint64 b = if ltb (length b) 8 then panic else ok (Binary.uint64 b)
