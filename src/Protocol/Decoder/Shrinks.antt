-- ===== src/Protocol/Decoder/Shrinks.antt =====
-- No method of the decoder of internal/protocol/decoder.go makes the stream longer.
use kage.Prelude.{
  ℕ, zero, suc, ◌≤◌, ◌<◌, Bool, true, false, ◌∷◌, arith, length, length-drop, if◌then◌else◌,
  is_neg32,
}
use kage.Outcome.{Outcome, ok, err, panic}
use kage.Binary.{uint32}
use kage.Protocol.Error.{ProtocolError}
use kage.Protocol.Decoder.{
  Stream, Parser, ◌>>=◌, pure, fail, read_full, read_int8, read_int16, read_int32, read_int64,
  read_bytes, read_bool, read_string,
}
use kage.Protocol.Arrays.{repeat, read_array}

-- What is left is no longer than the stream `s` was.
abbrev pub Left : {A : Type 0} → Stream → Outcome ProtocolError (A × Stream) → Type 0
Left s (ok (a, s')) = length s' ≤ length s
Left s (err e) = Unit {0}
Left s panic = Unit {0}

pub record Shrinks {A : Type 0} (p : Parser A) : Type 0 where
  pub left : (s : Stream) → Left s (p s)

Left-trans :
    {A : Type 0} (s s' : Stream) (o : Outcome ProtocolError (A × Stream))
    → length s' ≤ length s
    → Left s' o
    → Left s o
Left-trans s s' (ok (a, t)) h k = omega arith
Left-trans s s' (err e) h k = tt
Left-trans s s' panic h k = tt

pub pure-Shrinks : {A : Type 0} (a : A) → Shrinks (pure a)
pure-Shrinks a = record { left = λ s. omega arith }

pub fail-Shrinks : {A : Type 0} (e : ProtocolError) → Shrinks (fail {A = A} e)
fail-Shrinks e = record { left = λ s. tt }

after :
    {A B : Type 0} (s : Stream) (o : Outcome ProtocolError (A × Stream)) (f : A → Parser B)
    → Left s o
    → ((a : A) → Shrinks (f a))
    → Left s (elim o [ ok (a, s') ↦ f a s' | err e ↦ err e | panic ↦ panic ])
after s (ok (a, s')) f h k = Left-trans s s' (f a s') h ((k a).left s')
after s (err e) f h k = tt
after s panic f h k = tt

pub >>=-Shrinks :
    {A B : Type 0} (p : Parser A) (f : A → Parser B)
    → Shrinks p
    → ((a : A) → Shrinks (f a))
    → Shrinks (p >>= f)
>>=-Shrinks p f h k = record { left = λ s. after s (p s) f (h.left s) k }

pub if-Shrinks :
    {A : Type 0} (b : Bool) (p q : Parser A) → Shrinks p → Shrinks q → Shrinks (if b then p else q)
if-Shrinks true p q h k = h
if-Shrinks false p q h k = k

pub read_full-Shrinks : (n : ℕ) → Shrinks (read_full n)
unfolding read_full
read_full-Shrinks n = record { left = λ s. ground (arith, length-drop n s) }

pub ruleset shrinks = (>>=-Shrinks, if-Shrinks, pure-Shrinks, fail-Shrinks, read_full-Shrinks)

pub read_int8-Shrinks : Shrinks read_int8
unfolding read_int8
read_int8-Shrinks = search shrinks

pub read_int16-Shrinks : Shrinks read_int16
unfolding read_int16
read_int16-Shrinks = search shrinks

pub read_int32-Shrinks : Shrinks read_int32
unfolding read_int32
read_int32-Shrinks = search shrinks

pub read_int64-Shrinks : Shrinks read_int64
unfolding read_int64
read_int64-Shrinks = search shrinks

pub read_bytes-Shrinks : (n : ℕ) → Shrinks (read_bytes n)
unfolding read_bytes
read_bytes-Shrinks n = search shrinks

pub read_bool-Shrinks : Shrinks read_bool
unfolding read_bool
read_bool-Shrinks = search (shrinks, read_int8-Shrinks)

pub read_string-Shrinks : Shrinks read_string
unfolding read_string
read_string-Shrinks = search (shrinks, read_int16-Shrinks, read_bytes-Shrinks)

pub repeat-Shrinks : {A : Type 0} (n : ℕ) (item : Parser A) → Shrinks item → Shrinks (repeat n item)
unfolding repeat
repeat-Shrinks zero item h = search shrinks
repeat-Shrinks (suc n) item h =
    let ih = repeat-Shrinks n item h in
    >>=-Shrinks item (λ x. repeat n item >>= (λ xs. pure (x ∷ xs))) h
      (λ x. >>=-Shrinks (repeat n item) (λ xs. pure (x ∷ xs)) ih (λ xs. pure-Shrinks (x ∷ xs)))

pub panic-Shrinks : {A : Type 0} → Shrinks {A = A} (λ s. panic)
panic-Shrinks = record { left = λ s. tt }

pub read_array-Shrinks :
    {A : Type 0} (n : ℕ) (item : Parser A) → Shrinks item → Shrinks (read_array n item)
unfolding read_array
read_array-Shrinks n item h =
    if-Shrinks (is_neg32 n) (λ s. panic) (repeat n item) panic-Shrinks (repeat-Shrinks n item h)

pub ruleset reader_shrinks = (
  shrinks, read_int8-Shrinks, read_int16-Shrinks, read_int32-Shrinks, read_int64-Shrinks,
  read_bytes-Shrinks, read_bool-Shrinks, read_string-Shrinks, read_array-Shrinks,
)

-- After a result the stream is shorter.
abbrev pub Shorter : {A : Type 0} → Stream → Outcome ProtocolError (A × Stream) → Type 0
Shorter s (ok (a, s')) = length s' < length s
Shorter s (err e) = Unit {0}
Shorter s panic = Unit {0}

Shorter-trans :
    {A : Type 0} (s s' : Stream) (o : Outcome ProtocolError (A × Stream))
    → length s' < length s
    → Left s' o
    → Shorter s o
Shorter-trans s s' (ok (a, t)) h k = omega arith
Shorter-trans s s' (err e) h k = tt
Shorter-trans s s' panic h k = tt

after_first :
    {A B : Type 0} (s : Stream) (o : Outcome ProtocolError (A × Stream)) (f : A → Parser B)
    → Shorter s o
    → ((a : A) → Shrinks (f a))
    → Shorter s (elim o [ ok (a, s') ↦ f a s' | err e ↦ err e | panic ↦ panic ])
after_first s (ok (a, s')) f h k = Shorter-trans s s' (f a s') h ((k a).left s')
after_first s (err e) f h k = tt
after_first s panic f h k = tt

-- The first of two parsers takes bytes, so both do.
pub >>=-Shorter :
    {A B : Type 0} (p : Parser A) (f : A → Parser B) (s : Stream)
    → Shorter s (p s)
    → ((a : A) → Shrinks (f a))
    → Shorter s ((p >>= f) s)
>>=-Shorter p f s h k = after_first s (p s) f h k

pub read_full-Shorter : (n : ℕ) (s : Stream) → 1 ≤ n → Shorter s (read_full n s)
unfolding read_full
read_full-Shorter n s h = ground (arith, length-drop n s)

pub read_int32-Shorter : (s : Stream) → Shorter s (read_int32 s)
unfolding read_int32
read_int32-Shorter s =
    >>=-Shorter (read_full 4) (λ b. pure (uint32 b)) s (read_full-Shorter 4 s (omega arith))
      (λ b. pure-Shrinks (uint32 b))
