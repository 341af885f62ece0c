-- ===== src/Server/OffsetRecord/Safety.antt =====
-- No record makes the decoding panic, so none keeps the broker from starting.
use kage.Prelude.{
  ℕ, ◌+◌, ◌≤◌, ◌≡◌, ◌≢◌, true, false, Bytes, arith, length, take, drop, length-drop, length-take,
  ltb, le_or_lt, inl, inr, if◌then◌else◌,
}
use kage.Outcome.{Outcome, ok, err, panic, ◌>>=◌}
use kage.Binary
use kage.Slice.{slice, slice_from, uint16, uint32}
use kage.Slice.Laws.{slice_le, slice_from_le, uint16_le, uint32_le, uint64_le}
use kage.Server.OffsetRecord.{
  DecodeError, split_record, decode_key, decode_value, decode_offset_record,
}

-- An outcome that is a value or an error.
abbrev IsSafe : {A : Type 0} → Outcome DecodeError A → Type 0
IsSafe (ok a) = Unit {0}
IsSafe (err e) = Unit {0}
IsSafe panic = ⊥

module _ {A B : Type 0} where
  -- A step behind a guard that makes it succeed.
  guard-IsSafe :
      (n m : ℕ) (e : DecodeError) (o : Outcome DecodeError A) (f : A → Outcome DecodeError B)
      (a : A)
      → (m ≤ n → o ≡ ok a)
      → (m ≤ n → IsSafe (f a))
      → IsSafe (if ltb n m then err e else o >>= f)
  guard-IsSafe n m e o f a step rest = elim (le_or_lt m n) [
    | inl h ↦ let test : ltb n m ≡ false = ground arith in rw (test, step h) (rest h)
    | inr h ↦ let test : ltb n m ≡ true = ground arith in rw test tt
  ]

  step-IsSafe :
      (o : Outcome DecodeError A) (f : A → Outcome DecodeError B) (a : A)
      → o ≡ ok a
      → IsSafe (f a)
      → IsSafe (o >>= f)
  step-IsSafe o f a e rest = rw e rest

  >>=-IsSafe :
      (o : Outcome DecodeError A) (f : A → Outcome DecodeError B)
      → IsSafe o
      → ((a : A) → IsSafe (f a))
      → IsSafe (o >>= f)
  >>=-IsSafe (ok a) f h k = k a
  >>=-IsSafe (err e) f h k = tt
  >>=-IsSafe panic f h k = absurd h

decode_value-IsSafe : (value : Bytes) → IsSafe (decode_value value)
unfolding decode_value
decode_value-IsSafe value =
    guard-IsSafe (length value) 8 _ (slice 0 8 value) _ (take 8 value)
      (λ h. slice_le 0 8 value (omega arith) h)
      (λ h. rw (uint64_le (take 8 value) (omega (arith, length-take 8 value, h))) tt)

split_record-IsSafe : (r : Bytes) → IsSafe (split_record r)
unfolding split_record
split_record-IsSafe r =
    let n = length r in
    let k = Binary.uint32 r in
    let v = Binary.uint32 (drop (4 + k) r) in
    guard-IsSafe n 4 _ (slice_from 0 r) _ r (λ h. slice_from_le 0 r (omega arith))
      (λ h. step-IsSafe (uint32 r) _ k (uint32_le r h) (
        guard-IsSafe n (4 + k) _ (slice 4 (4 + k) r) _ _ (λ h. slice_le 4 (4 + k) r (omega arith) h)
          (λ h.
            guard-IsSafe n (4 + k + 4) _ (slice_from (4 + k) r) _ _
              (λ h. slice_from_le (4 + k) r (omega arith))
              (λ h.
                step-IsSafe (uint32 (drop (4 + k) r)) _ v
                  (uint32_le _ (omega (arith, length-drop (4 + k) r, h)))
                  (guard-IsSafe n (4 + k + 4 + v) _ (slice (4 + k + 4) (4 + k + 4 + v) r) _ _
                    (λ h. slice_le (4 + k + 4) (4 + k + 4 + v) r (omega arith) h) (λ h. tt))))))

decode_key-IsSafe : (key : Bytes) → IsSafe (decode_key key)
unfolding decode_key
decode_key-IsSafe key =
    let n = length key in
    let g = Binary.uint16 key in
    let t = Binary.uint16 (drop (2 + g) key) in
    let at = 2 + g + 2 + t in
    guard-IsSafe n 2 _ (slice_from 0 key) _ key (λ h. slice_from_le 0 key (omega arith))
      (λ h. step-IsSafe (uint16 key) _ g (uint16_le key h) (
        guard-IsSafe n (2 + g) _ (slice 2 (2 + g) key) _ _
          (λ h. slice_le 2 (2 + g) key (omega arith) h)
          (λ h.
            guard-IsSafe n (2 + g + 2) _ (slice_from (2 + g) key) _ _
              (λ h. slice_from_le (2 + g) key (omega arith))
              (λ h.
                step-IsSafe (uint16 (drop (2 + g) key)) _ t
                  (uint16_le _ (omega (arith, length-drop (2 + g) key, h)))
                  (guard-IsSafe n at _ (slice (2 + g + 2) at key) _ _
                    (λ h. slice_le (2 + g + 2) at key (omega arith) h)
                    (λ h.
                      guard-IsSafe n (at + 4) _ (slice_from at key) _ _
                        (λ h. slice_from_le at key (omega arith))
                        (λ h.
                          step-IsSafe (uint32 (drop at key)) _ _
                            (uint32_le _ (omega (arith, length-drop at key, h))) tt)))))))

decode_offset_record-IsSafe : (r : Bytes) → IsSafe (decode_offset_record r)
unfolding decode_offset_record
decode_offset_record-IsSafe r =
    >>=-IsSafe (split_record r) _ (split_record-IsSafe r) (λ (key, value).
      >>=-IsSafe (decode_key key) _ (decode_key-IsSafe key)
        (λ cache_key. >>=-IsSafe (decode_value value) _ (decode_value-IsSafe value) (λ offset. tt)))

IsSafe-panic : {A : Type 0} (o : Outcome DecodeError A) → IsSafe o → o ≢ panic
IsSafe-panic (ok a) h e = ground arith
IsSafe-panic (err x) h e = ground arith
IsSafe-panic panic h e = h

-- Whatever the bytes of a record are, decoding it does not panic: each slice and each read stands
-- behind a test that keeps it inside the record.
pub decode_offset_record-panic : (r : Bytes) → decode_offset_record r ≢ panic
decode_offset_record-panic r = IsSafe-panic (decode_offset_record r) (decode_offset_record-IsSafe r)
