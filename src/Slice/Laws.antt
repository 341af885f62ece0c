-- ===== src/Slice/Laws.antt =====
-- When a slice expression or a read succeeds, and when it panics.
use kage.Prelude.{
  ℕ, zero, suc, ◌-◌, ◌≤◌, ◌<◌, ◌≡◌, refl, [], ◌∷◌, arith, Bytes, length, take, drop, get_or,
}
use kage.Outcome.{ok, panic}
use kage.Binary
use kage.Slice.{byte_at, slice, slice_from, uint16, uint32, uint64}

module _ {E : Type 0} where
  pub byte_at_lt : (i : ℕ) (b : Bytes) → i < length b → byte_at {E = E} i b ≡ ok (get_or b i 0)
  unfolding byte_at
  byte_at_lt zero [] h = absurd (omega arith)
  byte_at_lt zero (x ∷ b) h = refl
  byte_at_lt (suc i) [] h = absurd (omega arith)
  byte_at_lt (suc i) (x ∷ b) h = byte_at_lt i b (omega arith)

  pub slice_le :
      (lo hi : ℕ) (b : Bytes)
      → lo ≤ hi
      → hi ≤ length b
      → slice {E = E} lo hi b ≡ ok (take (hi - lo) (drop lo b))
  unfolding slice
  slice_le lo hi b h k = ground arith

  pub slice_gt : (lo hi : ℕ) (b : Bytes) → hi < lo → slice {E = E} lo hi b ≡ panic
  unfolding slice
  slice_gt lo hi b h = ground arith

  pub slice_from_le :
      (lo : ℕ) (b : Bytes) → lo ≤ length b → slice_from {E = E} lo b ≡ ok (drop lo b)
  unfolding slice_from
  slice_from_le lo b h = ground arith

  pub uint16_le : (b : Bytes) → 2 ≤ length b → uint16 {E = E} b ≡ ok (Binary.uint16 b)
  unfolding uint16
  uint16_le b h = ground arith

  pub uint32_le : (b : Bytes) → 4 ≤ length b → uint32 {E = E} b ≡ ok (Binary.uint32 b)
  unfolding uint32
  uint32_le b h = ground arith

  pub uint64_le : (b : Bytes) → 8 ≤ length b → uint64 {E = E} b ≡ ok (Binary.uint64 b)
  unfolding uint64
  uint64_le b h = ground arith
