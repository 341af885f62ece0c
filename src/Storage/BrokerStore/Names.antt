-- ===== src/Storage/BrokerStore/Names.antt =====
-- The names of the partitions' directories.
use kage.Prelude.{
  ℕ, ◌-◌, ◌<◌, ◌≡◌, ◌≢◌, refl, sym, ap, ◌∙◌, true, false, none, some, [], ◌∷◌, ◌++◌, append_assoc,
  arith, Bytes, bytes_eq, All, ltb, is_neg32,
}
use kage.Decimal.{digits, format_int32}
use kage.Decimal.RoundTrip.{IsDigit, digits-IsDigit, digits-ne-nil, parse_digits-digits}
use kage.Storage.BrokerStore.{
  partition_key, all_digits, match_dir, in_range, parse_match, parse_dir_name,
}

all_digits-IsDigit : (b : Bytes) → All IsDigit b → all_digits b ≡ true
all_digits-IsDigit [] h = refl
all_digits-IsDigit (c ∷ cs) h = ground (arith, all_digits-IsDigit cs h.1)

-- No hyphen among digits: the expression does not match them.
match_dir-digits : (b : Bytes) → All IsDigit b → match_dir b ≡ none
unfolding match_dir
match_dir-digits [] h = refl
match_dir-digits (c ∷ cs) h = rw (match_dir-digits cs h.1) (ground arith)

bytes_eq_nil : (b : Bytes) → b ≢ [] → bytes_eq b [] ≡ false
unfolding bytes_eq
bytes_eq_nil [] h = absurd (h refl)
bytes_eq_nil (x ∷ b) h = refl

-- A topic holds no line feed.
abbrev pub NoLineFeed : ℕ → Type 0
NoLineFeed c = c ≢ b'\n'

match_dir-key :
    (topic number : Bytes)
    → All NoLineFeed topic
    → All IsDigit number
    → number ≢ []
    → match_dir (topic ++ (b'-' ∷ number)) ≡ some (topic, number)
unfolding match_dir
match_dir-key [] number f d n =
    rw (match_dir-digits number d, all_digits-IsDigit number d, bytes_eq_nil number n)
match_dir-key (c ∷ topic) number f d n =
    rw (match_dir-key topic number f.1 d n) (ground (arith, f.0))

-- A topic that is not empty and holds no line feed, and a partition that is not negative, are found
-- again in the name of their directory.
pub parse_dir_name-partition_key :
    (topic : Bytes) (partition : ℕ)
    → topic ≢ []
    → All NoLineFeed topic
    → partition < 0x8000_0000
    → parse_dir_name (partition_key topic partition)
      ≡ some (record { topic = topic; partition = partition })
unfolding parse_dir_name partition_key format_int32 parse_match in_range
parse_dir_name-partition_key [] partition n f h = absurd (n refl)
parse_dir_name-partition_key (c ∷ topic) partition n f h =
    let positive : is_neg32 partition ≡ false = ground arith in
    let small : ltb partition 0x8000_0000 ≡ true = ground arith in
    rw positive (
      rw
        (match_dir-key (c ∷ topic) (digits partition) f (digits-IsDigit partition)
          (digits-ne-nil partition))
        (rw (parse_digits-digits partition, small)))

-- Two partitions that are not negative, of topics that are not empty and hold no line feed, share a
-- store only if they are the same.
pub partition_key_injective :
    (t u : Bytes) (p q : ℕ)
    → t ≢ []
    → u ≢ []
    → All NoLineFeed t
    → All NoLineFeed u
    → p < 0x8000_0000
    → q < 0x8000_0000
    → partition_key t p ≡ partition_key u q
    → (t ≡ u) × (p ≡ q)
partition_key_injective t u p q n m f g h k e =
    let same =
      sym (parse_dir_name-partition_key t p n f h)
      ∙ ap parse_dir_name e
      ∙ parse_dir_name-partition_key u q m g k in
    ground arith

-- The partition -n of a topic, for n from 1 to 2 ^ 31 - 1, has the key of the partition n of the
-- topic that has a hyphen more, so the two share one store.
pub partition_key_clash :
    (topic : Bytes) (n : ℕ)
    → 0 < n
    → n < 0x8000_0000
    → partition_key topic (0x1_0000_0000 - n) ≡ partition_key (topic ++ (b'-' ∷ [])) n
unfolding partition_key format_int32
partition_key_clash topic n h l =
    let negative : is_neg32 (0x1_0000_0000 - n) ≡ true = ground arith in
    let positive : is_neg32 n ≡ false = ground arith in
    let back : 0x1_0000_0000 - (0x1_0000_0000 - n) ≡ n = omega arith in
    rw (negative, positive, back, append_assoc)
