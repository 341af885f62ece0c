-- ===== src/Storage/Bufio/Contents.antt =====
-- What has been written to a writer, in the file or in the buffer, only grows, and grows by what
-- was written unless the write fails.
use kage.Prelude.{
  ℕ, ◌+◌, ◌-◌, ◌≡◌, refl, sym, ◌∙◌, ap, Bool, true, false, Option, none, some, [], ◌++◌,
  append_assoc, append-nil, arith, Bytes, length, take, drop, take-append-drop, if◌then◌else◌, ◌==◌,
  leb, Bool-cases, inl, inr, length-eq-zero, ==_iff, take-drop, take-nil,
}
use kage.Storage.Bufio.{
  Os, Writer, call, direct_write, flush_buffer, flush, write_empty, write_full, write,
}

abbrev pub contents : Writer → Bytes
contents w = w.file ++ w.buf

-- After a call that wrote `p`: all of it was taken, or a part of it and the writer has failed.
abbrev pub Wrote : Writer → Bytes → Bool → Writer → Type 0
Wrote w p true w' = (w'.failed ≡ false) × (w'.is_open ≡ w.is_open) × (contents w' ≡ contents w ++ p)
Wrote w p false w' =
    (w'.failed ≡ true) × (w'.is_open ≡ w.is_open) × (j : ℕ) × (contents w' ≡ contents w ++ take j p)

flush_buffer-Wrote :
    (o : Option ℕ) (w : Writer)
    → w.failed ≡ false
    → Wrote w [] (flush_buffer o w).0 (flush_buffer o w).1
unfolding flush_buffer
flush_buffer-Wrote none w h = (h, refl, refl)
flush_buffer-Wrote (some k) w h = (
  refl,
  refl,
  0,
  append_assoc w.file _ _ ∙ ap (λ t. w.file ++ t) (take-append-drop k w.buf) ∙ sym (append-nil _),
)

pub flush-Wrote : (os : Os) (w : Writer) → Wrote w [] (flush os w).0 (flush os w).1
unfolding flush
flush-Wrote os w = elim (Bool-cases w.failed) [
  | inl e ↦ simp e (refl, refl, 0, sym (append-nil _))
  | inr e ↦ elim (Bool-cases (length w.buf == 0)) [
    | inl z ↦ simp (e, z) (refl, refl, sym (append-nil _))
    | inr z ↦ simp (e, z) (flush_buffer-Wrote (call os w).0 w e)
  ]
]

flush_buffer_empties :
    (o : Option ℕ) (w : Writer)
    → (flush_buffer o w).0 ≡ true
    → ((flush_buffer o w).1.buf ≡ []) × ((flush_buffer o w).1.file ≡ contents w)
unfolding flush_buffer
flush_buffer_empties none w h = (refl, refl)
flush_buffer_empties (some k) w h = absurd (ground arith)

-- After a flush that succeeds the file holds all that was written, and the buffer is empty.
pub flush_empties :
    (os : Os) (w : Writer)
    → (flush os w).0 ≡ true
    → ((flush os w).1.buf ≡ []) × ((flush os w).1.file ≡ contents w)
unfolding flush
flush_empties os w h = elim (Bool-cases w.failed) [
  | inl e ↦ absurd (ground arith)
  | inr e ↦ elim (Bool-cases (length w.buf == 0)) [
    | inl z ↦
        let nil : w.buf ≡ [] = length-eq-zero w.buf ((==_iff _ _).0 z) in
        simp (e, z) (nil, rw nil (sym (append-nil _)))
    | inr z ↦ simp (e, z) (flush_buffer_empties (call os w).0 w (simp (e, z) at h))
  ]
]

direct_write-Wrote :
    (o : Option ℕ) (w : Writer) (p : Bytes)
    → w.failed ≡ false
    → w.buf ≡ []
    → Wrote w p (direct_write o w p).0 (direct_write o w p).1
unfolding direct_write
direct_write-Wrote none w p h e = (h, refl, simp (e, append-nil))
direct_write-Wrote (some k) w p h e = (refl, refl, k, simp (e, append-nil))

write_empty-Wrote :
    (capacity : ℕ) (os : Os) (w : Writer) (p : Bytes)
    → w.failed ≡ false
    → w.buf ≡ []
    → Wrote w p (write_empty capacity os w p).0 (write_empty capacity os w p).1
unfolding write_empty
write_empty-Wrote capacity os w p h e = elim (Bool-cases (leb (length p) capacity)) [
  | inl b ↦ rw b (h, refl, simp (e, append-nil))
  | inr b ↦ rw b (direct_write-Wrote (call os w).0 w p h e)
]

-- A write that is made in two parts.
write_rest-Wrote :
    (room : ℕ) (w w' : Writer) (p : Bytes) (done : Bool) (w'' : Writer)
    → w'.is_open ≡ w.is_open
    → contents w' ≡ contents w ++ take room p
    → Wrote w' (drop room p) done w''
    → Wrote w p done w''
write_rest-Wrote room w w' p true w'' o c (f, o', c') = (
  f,
  o' ∙ o,
  c' ∙ rw c (append_assoc (contents w) _ _ ∙ ap (λ t. contents w ++ t) (take-append-drop room p)),
)
write_rest-Wrote room w w' p false w'' o c (f, o', j, c') = (
  f,
  o' ∙ o,
  room + j,
  c'
      ∙ rw c (
          append_assoc (contents w) _ _
          ∙ ap (λ t. contents w ++ t) (take-drop room j (room + j) p refl)),
)

-- The buffer is filled up and flushed, and the rest is written.
write_full-Wrote :
    (capacity room : ℕ) (os : Os) (w : Writer) (p : Bytes)
    → Wrote w p (write_full capacity room os w p).0 (write_full capacity room os w p).1
unfolding write_full
write_full-Wrote capacity room os w p =
    go (flush os (record w { buf = w.buf ++ take room p })) (flush-Wrote os _) (flush_empties os _)
  where
    filled : Writer
    filled = record w { buf = w.buf ++ take room p }

    go :
        (r : Bool × Writer × Os)
        → Wrote filled [] r.0 r.1
        → (r.0 ≡ true → (r.1.buf ≡ []) × (r.1.file ≡ contents filled))
        → let last =
            (if r.0 then write_empty capacity r.2 r.1 (drop room p) else (false, r.1, r.2)) in
          Wrote w p last.0 last.1
    go (true, w', os') (f, o, c) h =
        write_rest-Wrote room w w' p _ _ o (c ∙ append-nil _ ∙ sym (append_assoc w.file w.buf _))
          (write_empty-Wrote capacity os' w' (drop room p) f (h refl).0)
    go (false, w', os') (f, o, j, c) h =
        (f, o, room, c ∙ rw take-nil (append-nil _ ∙ sym (append_assoc w.file w.buf _)))

pub write-Wrote :
    (capacity : ℕ) (os : Os) (w : Writer) (p : Bytes)
    → Wrote w p (write capacity os w p).0 (write capacity os w p).1
unfolding write
write-Wrote capacity os w p = elim (Bool-cases w.failed) [
  | inl e ↦ simp e (refl, refl, 0, sym (append-nil _))
  | inr e ↦ elim (Bool-cases (length w.buf == 0)) [
    | inl z ↦
        simp (e, z) (write_empty-Wrote capacity os w p e (length-eq-zero w.buf ((==_iff _ _).0 z)))
    | inr z ↦ elim (Bool-cases (leb (length p) (capacity - length w.buf))) [
      | inl b ↦ simp (e, z, b) (refl, refl, sym (append_assoc w.file w.buf p))
      | inr b ↦ simp (e, z, b) (write_full-Wrote capacity (capacity - length w.buf) os w p)
    ]
  ]
]

flush_buffer_succeeds : (w : Writer) → (flush_buffer none w).0 ≡ true
unfolding flush_buffer
flush_buffer_succeeds w = refl

pub call_succeeds : (w : Writer) → w.is_open ≡ true → call [] w ≡ (none, [])
unfolding call
call_succeeds w h = ground arith

-- With every system call succeeding, a flush of an open writer that has not failed succeeds.
pub flush_succeeds :
    (w : Writer)
    → w.failed ≡ false
    → w.is_open ≡ true
    → ((flush [] w).0 ≡ true) × ((flush [] w).2 ≡ [])
unfolding flush
flush_succeeds w h k = elim (Bool-cases (length w.buf == 0)) [
  | inl z ↦ simp (h, z) (refl, refl)
  | inr z ↦ simp (h, z, call_succeeds w k) (flush_buffer_succeeds w, refl)
]

pub is_open-flush : (os : Os) (w : Writer) → (flush os w).1.is_open ≡ w.is_open
is_open-flush os w = go (flush os w).0 (flush os w).1 (flush-Wrote os w)
  where
    go : (b : Bool) (w' : Writer) → Wrote w [] b w' → w'.is_open ≡ w.is_open
    go true w' h = h.1
    go false w' h = h.1
