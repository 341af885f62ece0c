-- ===== src/Protocol/Encoder/Starts.antt =====
-- No method of the encoder changes what has been written, so an encoding starts with what was
-- written first.
use kage.Prelude.{ℕ, ◌≡◌, ◌∙◌, Option, List, [], ◌∷◌, ◌++◌, append_assoc, append-nil, Bytes}
use kage.Binary.{put_uint32}
use kage.Protocol.Arrays.{write_each}
use kage.Protocol.Encoder.{
  Encoder, write_int8, write_int16, write_int32, write_int64, write_string, write_nullable_string,
  write_bytes, new_encoder,
}
use kage.Protocol.Encoder.Layout.{
  buffer-new_encoder, buffer-write_int8, buffer-write_int16, buffer-write_int32, buffer-write_int64,
  buffer-write_bytes, buffer-write_string, buffer-write_nullable_string,
}

pub record StartsWith (b : Bytes) (e : Encoder) : Type 0 where
  pub rest : Bytes
  pub split : e.buffer ≡ b ++ rest

module _ (b : Bytes) where
  grown-StartsWith :
      (e e' : Encoder) (w : Bytes) → e'.buffer ≡ e.buffer ++ w → StartsWith b e → StartsWith b e'
  grown-StartsWith e e' w g s = record {
    rest = s.rest ++ w;
    split = g ∙ rw (s.split, append_assoc);
  }

  pub write_int8-StartsWith : (e : Encoder) (v : ℕ) → StartsWith b e → StartsWith b (write_int8 e v)
  write_int8-StartsWith e v = grown-StartsWith e (write_int8 e v) _ (buffer-write_int8 e v)

  pub write_int16-StartsWith :
      (e : Encoder) (v : ℕ) → StartsWith b e → StartsWith b (write_int16 e v)
  write_int16-StartsWith e v = grown-StartsWith e (write_int16 e v) _ (buffer-write_int16 e v)

  pub write_int32-StartsWith :
      (e : Encoder) (v : ℕ) → StartsWith b e → StartsWith b (write_int32 e v)
  write_int32-StartsWith e v = grown-StartsWith e (write_int32 e v) _ (buffer-write_int32 e v)

  pub write_int64-StartsWith :
      (e : Encoder) (v : ℕ) → StartsWith b e → StartsWith b (write_int64 e v)
  write_int64-StartsWith e v = grown-StartsWith e (write_int64 e v) _ (buffer-write_int64 e v)

  pub write_bytes-StartsWith :
      (e : Encoder) (w : Bytes) → StartsWith b e → StartsWith b (write_bytes e w)
  write_bytes-StartsWith e w = grown-StartsWith e (write_bytes e w) _ (buffer-write_bytes e w)

  pub write_string-StartsWith :
      (e : Encoder) (w : Bytes) → StartsWith b e → StartsWith b (write_string e w)
  write_string-StartsWith e w = grown-StartsWith e (write_string e w) _ (buffer-write_string e w)

  pub write_nullable_string-StartsWith :
      (e : Encoder) (o : Option Bytes) → StartsWith b e → StartsWith b (write_nullable_string e o)
  write_nullable_string-StartsWith e o =
      grown-StartsWith e (write_nullable_string e o) _ (buffer-write_nullable_string e o)

  pub write_each-StartsWith :
      {A : Type 0} (body : Encoder → A → Encoder)
      → ((e : Encoder) (x : A) → StartsWith b e → StartsWith b (body e x))
      → (e : Encoder) (xs : List A) → StartsWith b e
      → StartsWith b (write_each body e xs)
  unfolding write_each
  write_each-StartsWith body step e [] s = s
  write_each-StartsWith body step e (x ∷ xs) s =
      write_each-StartsWith body step (body e x) xs (step e x s)

-- The first thing that a response has.
pub write_int32-first : (id : ℕ) → StartsWith (put_uint32 id) (write_int32 new_encoder id)
write_int32-first id = record {
  rest = [];
  split = buffer-write_int32 new_encoder id ∙ rw (buffer-new_encoder, append-nil);
}

pub ruleset starts = (
  write_int8-StartsWith, write_int16-StartsWith, write_int32-StartsWith, write_int64-StartsWith,
  write_bytes-StartsWith, write_string-StartsWith, write_nullable_string-StartsWith,
  write_each-StartsWith, write_int32-first,
)
