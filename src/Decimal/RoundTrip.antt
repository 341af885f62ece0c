-- ===== src/Decimal/RoundTrip.antt =====
-- What is formatted is parsed again.
use kage.Prelude.{
  ℕ, zero, suc, ◌+◌, ◌-◌, ◌*◌, ◌/◌, ◌%◌, ◌<◌, ◌≤◌, ◌≡◌, ◌≢◌, refl, ◌∙◌, some, [], ◌∷◌, ◌++◌, arith,
  Bytes, ltb, le_or_lt, inl, inr, All, All-append, true, false,
}
use kage.Decimal.{digits_of, digits, parse_from, parse_digits}

abbrev pub IsDigit : ℕ → Type 0
IsDigit c = (b'0' ≤ c) × (c ≤ b'9')

parse_from-append :
    (acc v d : ℕ) (b : Bytes)
    → d < 10
    → parse_from acc b ≡ some v
    → parse_from acc (b ++ (b'0' + d) ∷ []) ≡ some (v * 10 + d)
unfolding parse_from
parse_from-append acc v d [] h e = ground arith
parse_from-append acc v d (c ∷ cs) h e =
    ground (arith, parse_from-append (acc * 10 + (c - b'0')) v d cs)

parse_from-digits_of : (fuel n : ℕ) → n < fuel → parse_from 0 (digits_of fuel n) ≡ some n
unfolding digits_of
parse_from-digits_of zero n h = absurd (omega arith)
parse_from-digits_of (suc fuel) n h = elim (le_or_lt 10 n) [
  | inl big ↦
      let test : ltb n 10 ≡ false = ground arith in
      let same : (n / 10) * 10 + n % 10 ≡ n = omega arith in
      rw (
        test,
        parse_from-append 0 (n / 10) (n % 10) (digits_of fuel (n / 10)) (omega arith)
            (parse_from-digits_of fuel (n / 10) (omega arith)),
        same,
      )
  | inr small ↦
      let test : ltb n 10 ≡ true = ground arith in rw test (unfold parse_from in ground arith)
]

pub digits_of-IsDigit : (fuel n : ℕ) → All IsDigit (digits_of fuel n)
unfolding digits_of
digits_of-IsDigit zero n = tt
digits_of-IsDigit (suc fuel) n = elim (le_or_lt 10 n) [
  | inl big ↦
      let test : ltb n 10 ≡ false = ground arith in
      rw test (
        All-append IsDigit (digits_of fuel (n / 10)) ((b'0' + n % 10) ∷ [])
          (digits_of-IsDigit fuel (n / 10)) (omega arith))
  | inr small ↦ let test : ltb n 10 ≡ true = ground arith in rw test (omega arith)
]

pub digits-IsDigit : (n : ℕ) → All IsDigit (digits n)
unfolding digits
digits-IsDigit n = digits_of-IsDigit (suc n) n

pub parse_digits-parse_from : (b : Bytes) → b ≢ [] → parse_digits b ≡ parse_from 0 b
unfolding parse_digits
parse_digits-parse_from [] h = absurd (h refl)
parse_digits-parse_from (c ∷ cs) h = refl

pub digits-ne-nil : (n : ℕ) → digits n ≢ []
unfolding digits digits_of
digits-ne-nil n e = elim (le_or_lt 10 n) [
  | inl big ↦
      let test : ltb n 10 ≡ false = ground arith in
      append-ne-nil (digits_of n (n / 10)) (b'0' + n % 10) (rw test at e)
  | inr small ↦ ground arith
]
  where
    append-ne-nil : (b : Bytes) (c : ℕ) → b ++ c ∷ [] ≡ [] → ⊥
    append-ne-nil [] c e = ground arith
    append-ne-nil (x ∷ b) c e = ground arith

pub parse_digits-digits : (n : ℕ) → parse_digits (digits n) ≡ some n
unfolding digits
parse_digits-digits n =
    parse_digits-parse_from (digits n) (digits-ne-nil n)
    ∙ parse_from-digits_of (suc n) n (omega arith)
