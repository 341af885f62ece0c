-- ===== src/Storage/Bufio/Success.antt =====
-- With every system call succeeding, a write to an open writer that has not failed succeeds.
use kage.Prelude.{
  ℕ, ◌-◌, ◌≡◌, refl, ◌∙◌, Bool, true, false, none, [], ◌++◌, arith, Bytes, length, take, drop, ◌==◌,
  leb, Bool-cases, inl, inr,
}
use kage.Storage.Bufio.{Writer, direct_write, flush, write_empty, write_full, write}
use kage.Storage.Bufio.Contents.{Wrote, flush-Wrote, write-Wrote, call_succeeds, flush_succeeds}

-- A writer that takes what is written while the system calls succeed.
pub record IsReady (w : Writer) : Type 0 where
  pub healthy : w.failed ≡ false
  pub is_open : w.is_open ≡ true

direct_write_succeeds : (w : Writer) (p : Bytes) → (direct_write none w p).0 ≡ true
unfolding direct_write
direct_write_succeeds w p = refl

write_empty_succeeds :
    (capacity : ℕ) (w : Writer) (p : Bytes)
    → IsReady w
    → ((write_empty capacity [] w p).0 ≡ true) × ((write_empty capacity [] w p).2 ≡ [])
unfolding write_empty
write_empty_succeeds capacity w p r = elim (Bool-cases (leb (length p) capacity)) [
  | inl b ↦ simp b (refl, refl)
  | inr b ↦ simp (b, call_succeeds w r.is_open) (direct_write_succeeds w p, refl)
]

healthy-Wrote :
    (w : Writer) (p : Bytes) (b : Bool) (w' : Writer)
    → b ≡ true
    → Wrote w p b w'
    → IsReady w
    → IsReady w'
healthy-Wrote w p true w' e h r = record { healthy = h.0; is_open = h.1 ∙ r.is_open }
healthy-Wrote w p false w' e h r = absurd (ground arith)

pub flush-IsReady : (w : Writer) → IsReady w → IsReady (flush [] w).1
flush-IsReady w r =
    healthy-Wrote w [] (flush [] w).0 _ (flush_succeeds w r.healthy r.is_open).0 (flush-Wrote [] w)
      r

write_full_succeeds :
    (capacity room : ℕ) (w : Writer) (p : Bytes)
    → IsReady w
    → ((write_full capacity room [] w p).0 ≡ true) × ((write_full capacity room [] w p).2 ≡ [])
unfolding write_full
write_full_succeeds capacity room w p r =
    let filled : Writer = record w { buf = w.buf ++ take room p } in
    let ready : IsReady filled = record { healthy = r.healthy; is_open = r.is_open } in
    let (done, rest) = flush_succeeds filled r.healthy r.is_open in
    simp (done, rest)
      (write_empty_succeeds capacity (flush [] filled).1 (drop room p) (flush-IsReady filled ready))

pub write_succeeds :
    (capacity : ℕ) (w : Writer) (p : Bytes)
    → IsReady w
    → ((write capacity [] w p).0 ≡ true) × ((write capacity [] w p).2 ≡ [])
unfolding write
write_succeeds capacity w p r = elim (Bool-cases (length w.buf == 0)) [
  | inl z ↦ simp (r.healthy, z) (write_empty_succeeds capacity w p r)
  | inr z ↦ elim (Bool-cases (leb (length p) (capacity - length w.buf))) [
    | inl b ↦ simp (r.healthy, z, b) (refl, refl)
    | inr b ↦ simp (r.healthy, z, b) (write_full_succeeds capacity _ w p r)
  ]
]

pub write-IsReady :
    (capacity : ℕ) (w : Writer) (p : Bytes) → IsReady w → IsReady (write capacity [] w p).1
write-IsReady capacity w p r =
    healthy-Wrote w p _ _ (write_succeeds capacity w p r).0 (write-Wrote capacity [] w p) r
