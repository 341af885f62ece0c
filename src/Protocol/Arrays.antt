-- ===== src/Protocol/Arrays.antt =====
-- The arrays of the Kafka wire format: a count as an int32, then the elements. Reading one is the
-- `make` and the loop of the parsers in internal/protocol/messages.go; writing one is the `range`
-- loop of the encoding methods.
use kage.Prelude.{
  wire_all, ℕ, zero, suc, ◌<◌, ◌≡◌, refl, ◌∙◌, List, [], ◌∷◌, ◌++◌, append_assoc, append-nil, arith,
  Bytes, length, All, IsU32, is_neg32, if◌then◌else◌,
}
use kage.Outcome.{ok, panic}
use kage.Protocol.Encoder.{Encoder}
use kage.Protocol.Decoder.{Parser, ◌>>=◌, pure}

-- `for i := int32(0); i < count; i++ { x, err := item; if err != nil { return err }; append }`
unfoldable pub repeat : {A : Type 0} → ℕ → Parser A → Parser (List A)
repeat zero item = pure []
repeat (suc n) item = do x ← item; xs ← repeat n item; pure (x ∷ xs)

-- `make([]T, 0, count)`, which panics if the int32 `count` is negative, and the loop.
unfoldable pub read_array : {A : Type 0} → ℕ → Parser A → Parser (List A)
read_array count item = if is_neg32 count then (λ s. panic) else repeat count item

-- `for _, x := range xs { body }` over the encoder.
unfoldable pub write_each : {A : Type 0} → (Encoder → A → Encoder) → Encoder → List A → Encoder
write_each body e [] = e
write_each body e (x ∷ xs) = write_each body (body e x) xs

module _ {A : Type 0} (w : A → Bytes) where
  pub buffer-write_each :
      (body : Encoder → A → Encoder)
      → ((e : Encoder) (x : A) → (body e x).buffer ≡ e.buffer ++ w x)
      → (e : Encoder) (xs : List A) → (write_each body e xs).buffer ≡ e.buffer ++ wire_all w xs
  unfolding write_each wire_all
  buffer-write_each body step e [] = rw append-nil
  buffer-write_each body step e (x ∷ xs) =
      buffer-write_each body step (body e x) xs ∙ rw (step e x, append_assoc)

  -- If each element is read back, so is the array.
  pub repeat-wire_all :
      (item : Parser A) (Fits : A → Type 0)
      → ((x : A) (rest : Bytes) → Fits x → item (w x ++ rest) ≡ ok (x, rest))
      → (xs : List A) (rest : Bytes) → All Fits xs
      → repeat (length xs) item (wire_all w xs ++ rest) ≡ ok (xs, rest)
  unfolding repeat wire_all
  repeat-wire_all item Fits back [] rest h = refl
  repeat-wire_all item Fits back (x ∷ xs) rest h = ground (
    arith,
    append_assoc (w x) (wire_all w xs) rest,
    back x (wire_all w xs ++ rest) h.0,
    repeat-wire_all item Fits back xs rest h.1,
  )

  pub read_array-wire_all :
      (item : Parser A) (Fits : A → Type 0)
      → ((x : A) (rest : Bytes) → Fits x → item (w x ++ rest) ≡ ok (x, rest))
      → (xs : List A) (rest : Bytes) → length xs < 0x8000_0000
      → All Fits xs
      → read_array (length xs) item (wire_all w xs ++ rest) ≡ ok (xs, rest)
  unfolding read_array
  read_array-wire_all item Fits back xs rest fits h =
      ground (arith, repeat-wire_all item Fits back xs rest h)

-- A count that is a positive int32 is a uint32.
pub U32-small : (n : ℕ) → n < 0x8000_0000 → IsU32 n
U32-small n h = omega arith
