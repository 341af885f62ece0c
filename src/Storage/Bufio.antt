-- ===== src/Storage/Bufio.antt =====
-- Go's bufio.Writer over a file that is open for appending. The environment decides how each
-- system call ends: an `Os` is the list of the outcomes to come, `none` for a call that succeeds
-- and `some k` for one that fails, a write after `k` bytes of it; past the end of the list every
-- call succeeds. A call on a closed file fails.
pub mod Contents
pub mod Success
use kage.Prelude.{
  ℕ, ◌-◌, Bool, true, false, Option, none, some, List, [], ◌∷◌, ◌++◌, Bytes, length, take, drop,
  leb, ◌==◌, if◌then◌else◌,
}

abbrev pub Os : Type 0
Os = List (Option ℕ)

-- The bytes that reached the file, whether it is open, the bytes still in the buffer, and whether
-- a write has failed, after which every call returns the same error.
pub record Writer : Type 0 where
  pub file : Bytes
  pub is_open : Bool
  pub buf : Bytes
  pub failed : Bool

-- A new writer over a file that has been opened.
unfoldable pub new_writer : Bytes → Writer
new_writer content = record { file = content; is_open = true; buf = []; failed = false }

unfoldable pub next : Os → Option ℕ × Os
next [] = (none, [])
next (o ∷ os) = (o, os)

-- The outcome of the next system call on the file.
unfoldable pub call : Os → Writer → Option ℕ × Os
unfolding next
call os w = if w.is_open then next os else (some 0, os)

-- One write of `p` to the file.
unfoldable pub direct_write : Option ℕ → Writer → Bytes → Bool × Writer
direct_write none w p = (true, record w { file = w.file ++ p })
direct_write (some k) w p = (false, record w { file = w.file ++ take k p; failed = true })

-- What `Flush` does with the outcome of its write.
unfoldable pub flush_buffer : Option ℕ → Writer → Bool × Writer
flush_buffer none w = (true, record w { file = w.file ++ w.buf; buf = [] })
flush_buffer (some k) w =
    (false, record w { file = w.file ++ take k w.buf; buf = drop k w.buf; failed = true })

unfoldable pub flush : Os → Writer → Bool × Writer × Os
flush os w =
    if w.failed
    then (false, w, os)
    else if length w.buf == 0
    then (true, w, os)
    else let (o, os') = call os w in let (done, w') = flush_buffer o w in (done, w', os')

-- `Write` once the buffer is empty: what does not fit goes straight to the file.
unfoldable pub write_empty : ℕ → Os → Writer → Bytes → Bool × Writer × Os
write_empty capacity os w p =
    if leb (length p) capacity
    then (true, record w { buf = p }, os)
    else let (o, os') = call os w in let (done, w') = direct_write o w p in (done, w', os')

-- The part of `Write` for what does not fit: the buffer is filled up and flushed first.
unfoldable pub write_full : ℕ → ℕ → Os → Writer → Bytes → Bool × Writer × Os
write_full capacity room os w p =
    let (done, w', os') = flush os (record w { buf = w.buf ++ take room p }) in
    if done then write_empty capacity os' w' (drop room p) else (false, w', os')

-- `Write` with a buffer of `capacity` bytes.
unfoldable pub write : ℕ → Os → Writer → Bytes → Bool × Writer × Os
write capacity os w p =
    if w.failed
    then (false, w, os)
    else if length w.buf == 0
    then write_empty capacity os w p
    else let room = capacity - length w.buf in
      if leb (length p) room
      then (true, record w { buf = w.buf ++ p }, os)
      else write_full capacity room os w p
