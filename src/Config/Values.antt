-- ===== src/Config/Values.antt =====
-- What the parsers of single values in internal/config/config.go return.
use kage.Prelude.{
  ℕ, ◌≤◌, ◌<◌, ◌≡◌, refl, ◌||◌, Bool, true, false, inl, inr, Bool-cases, Option, none, some, [],
  ◌∷◌, arith, Bytes, slt64, is_neg64, leb, ltb, ◌==◌, if◌then◌else◌,
}
use kage.Outcome.{Outcome, ok, err, panic, ◌>>=◌}
use kage.Decimal.{parse_digits}
use kage.Config.{
  ConfigError, in_bounds, parse_int, parse_int64, non_negative, positive, negated, out_of_range,
  negative,
}

-- A result, if there is one, has a property.
abbrev pub Gives : {A : Type 0} → (A → Type 0) → Outcome ConfigError A → Type 0
Gives P (ok a) = P a
Gives P (err e) = Unit {0}
Gives P panic = Unit {0}

pub >>=-Gives :
    {A B : Type 0} (P : A → Type 0) (Q : B → Type 0) (o : Outcome ConfigError A)
    (f : A → Outcome ConfigError B)
    → Gives P o
    → ((a : A) → P a → Gives Q (f a))
    → Gives Q (o >>= f)
>>=-Gives P Q (ok a) f h k = k a h
>>=-Gives P Q (err e) f h k = tt
>>=-Gives P Q panic f h k = tt

pub if-Gives :
    {A : Type 0} (P : A → Type 0) (b : Bool) (x y : Outcome ConfigError A)
    → (b ≡ true → Gives P x)
    → (b ≡ false → Gives P y)
    → Gives P (if b then x else y)
if-Gives P true x y h k = h refl
if-Gives P false x y h k = k refl

-- A pattern of 64 bits, if there is one.
abbrev Word : Option ℕ → Type 0
Word none = Unit {0}
Word (some n) = n < 0x1_0000_0000_0000_0000

positive-Word : (o : Option ℕ) → Word (positive o)
unfolding positive
positive-Word none = tt
positive-Word (some n) = elim (Bool-cases (ltb n 0x8000_0000_0000_0000)) [
  | inl a ↦ simp a (ground arith)
  | inr a ↦ simp a tt
]

negated-Word : (o : Option ℕ) → Word (negated o)
unfolding negated
negated-Word none = tt
negated-Word (some n) = elim (Bool-cases (leb n 0x8000_0000_0000_0000)) [
  | inl a ↦ simp a (omega arith)
  | inr a ↦ simp a tt
]

parse_int64-Word : (s : Bytes) → Word (parse_int64 s)
unfolding parse_int64
parse_int64-Word [] = tt
parse_int64-Word (c ∷ cs) = elim (Bool-cases (c == b'-')) [
  | inl a ↦ simp a (negated-Word (parse_digits cs))
  | inr a ↦ elim (Bool-cases (c == b'+')) [
    | inl b ↦ simp (a, b) (positive-Word (parse_digits cs))
    | inr b ↦ simp (a, b) (positive-Word (parse_digits (c ∷ cs)))
  ]
]

-- What `parseInt` returns lies in its bounds.
abbrev pub Within : ℕ → ℕ → Type 0
Within max n = (1 ≤ n) × (n ≤ max)

in_bounds-Gives :
    (max : ℕ) (o : Option ℕ)
    → max < 0x8000_0000_0000_0000
    → Word o
    → Gives (Within max) (in_bounds 1 max o)
unfolding in_bounds
in_bounds-Gives max none h w = tt
in_bounds-Gives max (some n) h w =
    if-Gives (Within max) (slt64 n 1 || slt64 max n) (err out_of_range) (ok n) (λ e. tt)
      (λ e. ground arith)

pub parse_int-Gives :
    (s : Bytes) (max : ℕ) → max < 0x8000_0000_0000_0000 → Gives (Within max) (parse_int s 1 max)
unfolding parse_int
parse_int-Gives s max h = in_bounds-Gives max (parse_int64 s) h (parse_int64-Word s)

pub non_negative-Gives : (o : Option ℕ) → Gives (λ d. d < 0x8000_0000_0000_0000) (non_negative o)
unfolding non_negative
non_negative-Gives none = tt
non_negative-Gives (some d) =
    if-Gives (λ d'. d' < 0x8000_0000_0000_0000) (is_neg64 d) (err negative) (ok d) (λ e. tt)
      (λ e. ground arith)
