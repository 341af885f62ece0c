-- ===== src/Protocol/Decoder.antt =====
-- internal/protocol/decoder.go: a decoder reads from a stream, which is the bytes that the peer
-- still sends before it closes the connection. A method takes the stream and returns its value with
-- what is left of the stream; after an error nothing more is read.
pub mod RoundTrip
pub mod Shrinks
use kage.Prelude.{
  ℕ, Bool, ◌||◌, not, List, [], ◌∷◌, Bytes, length, take, drop, ltb, ◌==◌, if◌then◌else◌, is_neg16,
  is_neg64,
}
use kage.Outcome.{Outcome, ok, err, panic}
use kage.Binary.{uint8, uint16, uint32, uint64}
use kage.Protocol.Error.{ProtocolError, eof, unexpected_eof}

abbrev pub Stream : Type 0
Stream = Bytes

abbrev pub Parser : Type 0 → Type 0
Parser A = Stream → Outcome ProtocolError (A × Stream)

infixl 5 ◌>>=◌ ◌>>◌
abbrev pub ◌>>=◌ : {A B : Type 0} → Parser A → (A → Parser B) → Parser B
◌>>=◌ m f s = elim (m s) [ ok (a, s') ↦ f a s' | err e ↦ err e | panic ↦ panic ]

abbrev pub ◌>>◌ : {A B : Type 0} → Parser A → Parser B → Parser B
m >> k = m >>= λ _. k

abbrev pub pure : {A : Type 0} → A → Parser A
pure a s = ok (a, s)

abbrev pub fail : {A : Type 0} → ProtocolError → Parser A
fail e s = err e

-- io.ReadFull of `n` bytes, which binary.Read uses too.
unfoldable pub read_full : ℕ → Parser Bytes
read_full n s =
    if ltb (length s) n
    then (if length s == 0 then err eof else err unexpected_eof)
    else ok (take n s, drop n s)

unfoldable pub read_int8 : Parser ℕ
read_int8 = do b ← read_full 1; pure (uint8 b)

unfoldable pub read_int16 : Parser ℕ
read_int16 = do b ← read_full 2; pure (uint16 b)

unfoldable pub read_int32 : Parser ℕ
read_int32 = do b ← read_full 4; pure (uint32 b)

unfoldable pub read_int64 : Parser ℕ
read_int64 = do b ← read_full 8; pure (uint64 b)

-- `n` is an `int`, of 64 bits.
unfoldable pub read_bytes : ℕ → Parser Bytes
read_bytes n = if is_neg64 n || n == 0 then pure [] else read_full n

unfoldable pub read_bool : Parser Bool
read_bool = do value ← read_int8; pure (not (value == 0))

unfoldable pub read_string : Parser Bytes
read_string = do
  length' ← read_int16
  if is_neg16 length' || length' == 0 then pure [] else read_bytes length'
