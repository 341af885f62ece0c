-- ===== src/Storage/Cleaner/Names.antt =====
-- The names of a segment's files: no two base offsets share one, and no log is an index.
use kage.Prelude.{
  ℕ, zero, suc, ◌-◌, ◌≡◌, refl, sym, ap, ◌∙◌, true, some, [], ◌∷◌, ◌++◌, arith, Bytes, bytes_eq_iff,
  length, length-append, take, drop, take-append_left, take-append-drop,
}
use kage.Decimal.{digits, parse_from}
use kage.Decimal.RoundTrip.{digits-ne-nil, parse_digits-parse_from, parse_digits-digits}
use kage.Storage.Cleaner.{
  log_ext, index_ext, zeros, pad20, log_name, index_name, has_suffix, trim_suffix, index_of,
}

parse_from-zeros : (n : ℕ) (b : Bytes) → parse_from 0 (zeros n ++ b) ≡ parse_from 0 b
unfolding parse_from
parse_from-zeros zero b = refl
parse_from-zeros (suc n) b = parse_from-zeros n b

-- The zeros in front do not change the number.
parse_from-pad20 : (n : ℕ) → parse_from 0 (pad20 n) ≡ some n
unfolding pad20
parse_from-pad20 n =
    parse_from-zeros (20 - length (digits n)) (digits n)
    ∙ sym (parse_digits-parse_from (digits n) (digits-ne-nil n))
    ∙ parse_digits-digits n

cancel_right : (a b s : Bytes) → a ++ s ≡ b ++ s → a ≡ b
cancel_right a b s e =
    let same : length a ≡ length b =
      omega (arith, length-append a s, length-append b s, ap length e) in
    sym (take-append_left a s)
    ∙ ap (λ (n : ℕ). take n (a ++ s)) same
    ∙ ap (take (length b)) e
    ∙ take-append_left b s

-- Two segments have the same log file only if they have the same base offset.
pub log_name_injective : (a b : ℕ) → log_name a ≡ log_name b → a ≡ b
log_name_injective a b e =
    let same : some a ≡ some b =
      sym (parse_from-pad20 a)
      ∙ ap (parse_from 0) (cancel_right (pad20 a) (pad20 b) log_ext e)
      ∙ parse_from-pad20 b in
    ground arith

-- The last byte, if there is one.
abbrev last_byte : Bytes → ℕ
last_byte [] = 0
last_byte (x ∷ []) = x
last_byte (x ∷ y ∷ b) = last_byte (y ∷ b)

last_byte-append : (a : Bytes) (x : ℕ) (b : Bytes) → last_byte (a ++ (x ∷ b)) ≡ last_byte (x ∷ b)
last_byte-append [] x b = refl
last_byte-append (y ∷ []) x b = refl
last_byte-append (y ∷ z ∷ a) x b = last_byte-append (z ∷ a) x b

-- A log is not an index.
pub log-ne-index : (a b : Bytes) → a ++ log_ext ≡ b ++ index_ext → ⊥
log-ne-index a b e =
    let same : b'g' ≡ b'x' =
      sym (last_byte-append a b'.' (b'l' ∷ b'o' ∷ b'g' ∷ []))
      ∙ ap last_byte e
      ∙ last_byte-append b b'.' (b'i' ∷ b'n' ∷ b'd' ∷ b'e' ∷ b'x' ∷ []) in
    omega (arith, same)

pub trim_suffix-append :
    (s suffix : Bytes) → has_suffix s suffix ≡ true → trim_suffix s suffix ++ suffix ≡ s
unfolding has_suffix trim_suffix
trim_suffix-append s suffix h =
    let n = length s - length suffix in
    let tail : drop n s ≡ suffix = (bytes_eq_iff (drop n s) suffix).0 (ground (arith, h)) in
    rw h (ap (λ b. take n s ++ b) (sym tail) ∙ take-append-drop n s)

-- A log whose index has the name of the index of a base offset is that base offset's log.
pub index_of-index_name :
    (name : Bytes) (base : ℕ)
    → has_suffix name log_ext ≡ true
    → index_of name ≡ index_name base
    → name ≡ log_name base
unfolding index_of
index_of-index_name name base h e =
    sym (trim_suffix-append name log_ext h)
    ∙ ap (λ b. b ++ log_ext) (cancel_right (trim_suffix name log_ext) (pad20 base) index_ext e)
