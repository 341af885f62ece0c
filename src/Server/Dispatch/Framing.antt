-- ===== src/Server/Dispatch/Framing.antt =====
-- What a client makes of a reply: a frame with the correlation id of its request.
use kage.Prelude.{ℕ, ◌+◌, ◌≡◌, ◌⊎◌, [], ◌++◌, arith, Bytes, length, length-append}
use kage.Binary.{put_uint32}
use kage.Binary.RoundTrip.{length-put_uint32}
use kage.Protocol.Encoder.{Encoder, full_message}
use kage.Protocol.Encoder.Starts.{StartsWith}
use kage.Server.Run.{Reply}

-- A length prefix of four bytes, and behind it as many bytes as it says, modulo 2 ^ 32, which start
-- with the correlation id.
abbrev pub IsFrame : ℕ → Bytes → Type 0
IsFrame id b = (rest : Bytes) × (b ≡ put_uint32 (4 + length rest) ++ (put_uint32 id ++ rest))

pub prefixed-IsFrame :
    (id : ℕ) (body rest : Bytes)
    → body ≡ put_uint32 id ++ rest
    → IsFrame id (put_uint32 (length body) ++ body)
prefixed-IsFrame id body rest e =
    let size : length (put_uint32 id ++ rest) ≡ 4 + length rest =
      omega (arith, length-append (put_uint32 id) rest, length-put_uint32 id) in
    (rest, rw (e, size))

pub full_message-IsFrame :
    (id : ℕ) (e : Encoder) → StartsWith (put_uint32 id) e → IsFrame id (full_message e)
unfolding full_message
full_message-IsFrame id e s = prefixed-IsFrame id e.buffer s.rest s.split

-- The reply of a handler to a request with that correlation id.
abbrev pub IsReply : ℕ → Reply → Type 0
IsReply id (b, _) = (b ≡ []) ⊎ IsFrame id b
