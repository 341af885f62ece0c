-- ===== src/Decimal.antt =====
-- Go's decimal numbers: `%d` of an int32, and strconv.ParseInt in base 10.
pub mod RoundTrip
use kage.Prelude.{
  ℕ, zero, suc, ◌+◌, ◌-◌, ◌*◌, ◌/◌, ◌%◌, ◌&&◌, Bool, true, false, Option, none, some, List, [], ◌∷◌,
  ◌++◌, Bytes, ltb, leb, is_neg32, ◌==◌, if◌then◌else◌,
}

-- The digits of `n`, the highest first; `n + 1` rounds are enough.
unfoldable pub digits_of : ℕ → ℕ → Bytes
digits_of zero n = []
digits_of (suc fuel) n =
    let front = digits_of fuel (n / 10) in
    if ltb n 10 then (b'0' + n) ∷ [] else front ++ (b'0' + n % 10) ∷ []

unfoldable pub digits : ℕ → Bytes
digits n = digits_of (suc n) n

-- `%d` of an int32.
unfoldable pub format_int32 : ℕ → Bytes
format_int32 v = if is_neg32 v then b'-' ∷ digits (0x1_0000_0000 - v) else digits v

abbrev pub is_digit : ℕ → Bool
is_digit c = leb b'0' c && leb c b'9'

-- The number that the digits spell behind those read so far, however large.
unfoldable pub parse_from : ℕ → Bytes → Option ℕ
parse_from acc [] = some acc
parse_from acc (c ∷ cs) =
    let rest = parse_from (acc * 10 + (c - b'0')) cs in if is_digit c then rest else none

unfoldable pub parse_digits : Bytes → Option ℕ
parse_digits [] = none
parse_digits (c ∷ cs) = parse_from 0 (c ∷ cs)
