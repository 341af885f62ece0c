-- ===== src/Prelude/Words.antt =====
-- Go's fixed-width integers. A value of any of its integer types is kept as its bit pattern, a
-- native number below 2 ^ w, so that a conversion such as `uint32(v)` of an `int32` is the identity
-- and a narrowing one is a remainder; the signed tests below read a pattern as two's complement.
use Prim.Native.Nat.{ℕ, ◌+◌, ◌-◌, ◌%◌, ◌<◌}
use mathlib.Core.Path.{◌≡◌, refl}
use mathlib.Core.List.{List, [], ◌∷◌, ◌++◌, append_assoc}
use mathlib.Core.Bool.{Bool, true, false, ◌&&◌}
use mathlib.Core.Logic.{◌↔◌}
use native.Mathlib.Omega.{arith}
use kage.Prelude.Tests.{ltb, leb, ◌==◌}

-- A byte slice or a string: its bytes.
abbrev pub Bytes : Type 0
Bytes = List ℕ

-- The equality of two strings.
unfoldable pub bytes_eq : Bytes → Bytes → Bool
bytes_eq [] [] = true
bytes_eq (x ∷ a) (y ∷ b) = (x == y) && bytes_eq a b
bytes_eq _ _ = false

pub bytes_eq_iff : (a b : Bytes) → (bytes_eq a b ≡ true) ↔ (a ≡ b)
unfolding bytes_eq
bytes_eq_iff [] [] = ((λ _. refl), (λ _. refl))
bytes_eq_iff [] (y ∷ b) = ((λ e. absurd (ground arith)), (λ e. absurd (ground arith)))
bytes_eq_iff (x ∷ a) [] = ((λ e. absurd (ground arith)), (λ e. absurd (ground arith)))
bytes_eq_iff (x ∷ a) (y ∷ b) =
    ((λ e. ground (arith, bytes_eq_iff a b)), (λ e. ground (arith, bytes_eq_iff a b)))

abbrev pub IsByte : ℕ → Type 0
IsByte b = b < 256

abbrev pub IsU16 : ℕ → Type 0
IsU16 v = v < 0x1_0000

abbrev pub IsU32 : ℕ → Type 0
IsU32 v = v < 0x1_0000_0000

abbrev pub IsU64 : ℕ → Type 0
IsU64 v = v < 0x1_0000_0000_0000_0000

-- The sign bit of an int16, an int32 and an int64.
abbrev pub is_neg16 : ℕ → Bool
is_neg16 v = leb 0x8000 v

abbrev pub is_neg32 : ℕ → Bool
is_neg32 v = leb 0x8000_0000 v

abbrev pub is_neg64 : ℕ → Bool
is_neg64 v = leb 0x8000_0000_0000_0000 v

-- Adding half the range turns the signed order of the patterns into that of the numbers.
abbrev pub bias16 : ℕ → ℕ
bias16 v = (v + 0x8000) % 0x1_0000

abbrev pub bias32 : ℕ → ℕ
bias32 v = (v + 0x8000_0000) % 0x1_0000_0000

abbrev pub bias64 : ℕ → ℕ
bias64 v = (v + 0x8000_0000_0000_0000) % 0x1_0000_0000_0000_0000

-- a < b of two int16, two int32 and two int64.
abbrev pub slt16 : ℕ → ℕ → Bool
slt16 a b = ltb (bias16 a) (bias16 b)

abbrev pub slt32 : ℕ → ℕ → Bool
slt32 a b = ltb (bias32 a) (bias32 b)

abbrev pub slt64 : ℕ → ℕ → Bool
slt64 a b = ltb (bias64 a) (bias64 b)

-- a + b and a - b, of the signed and of the unsigned types alike.
abbrev pub add32 : ℕ → ℕ → ℕ
add32 a b = (a + b) % 0x1_0000_0000

abbrev pub sub32 : ℕ → ℕ → ℕ
sub32 a b = (a + 0x1_0000_0000 - b) % 0x1_0000_0000

abbrev pub add64 : ℕ → ℕ → ℕ
add64 a b = (a + b) % 0x1_0000_0000_0000_0000

abbrev pub sub64 : ℕ → ℕ → ℕ
sub64 a b = (a + 0x1_0000_0000_0000_0000 - b) % 0x1_0000_0000_0000_0000

-- int64(v) of an int32: the sign bit is spread.
abbrev pub sext32 : ℕ → ℕ
sext32 v = ((v + 0x8000_0000) % 0x1_0000_0000 + 0xffff_ffff_8000_0000) % 0x1_0000_0000_0000_0000

-- The bytes of the elements, one after the other.
unfoldable pub wire_all : {A : Type 0} → (A → Bytes) → List A → Bytes
wire_all w [] = []
wire_all w (x ∷ xs) = w x ++ wire_all w xs

pub wire_all-append :
    {A : Type 0} (w : A → Bytes) (xs ys : List A)
    → wire_all w (xs ++ ys) ≡ wire_all w xs ++ wire_all w ys
unfolding wire_all
wire_all-append w [] ys = refl
wire_all-append w (x ∷ xs) ys = rw (wire_all-append w xs ys, append_assoc)
