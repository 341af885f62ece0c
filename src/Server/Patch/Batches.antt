-- ===== src/Server/Patch/Batches.antt =====
-- What the loop makes of a payload of whole batches.
use kage.Prelude.{
  ℕ, zero, suc, ◌+◌, ◌≤◌, ◌<◌, ◌≡◌, refl, sym, ap, ◌∙◌, true, false, List, [], ◌∷◌, ◌++◌,
  append_assoc, append-nil, arith, Bytes, length, length-append, drop, take-append_left,
  drop-append_left, drop-append_le, drop-drop, length-drop, All, wire_all, leb, ltb, add64,
  le_or_lt, inl, inr,
}
use kage.Binary.{put_uint64, uint32, uint64}
use kage.Binary.RoundTrip.{length-put_uint64, uint64-put_uint64}
use kage.Server.Patch.{put_uint64_at, target_base, patch_loop, patch_batches}

-- The fields of a batch that the loop reads.
abbrev pub batch_length : Bytes → ℕ
batch_length b = uint32 (drop 8 b)

abbrev pub last_offset_delta : Bytes → ℕ
last_offset_delta b = uint32 (drop 23 b)

-- A batch of at least 27 bytes that is as long as its length field says.
pub record IsWhole (b : Bytes) : Type 0 where
  pub long_enough : 27 ≤ length b
  pub exact : 12 + batch_length b ≡ length b

-- The batch with the base offset for a record that starts at `current_pos`.
unfoldable pub rebased : ℕ → Bytes → Bytes
rebased current_pos b =
    put_uint64 (target_base current_pos (length b) (last_offset_delta b)) ++ drop 8 b

unfoldable pub rebased_all : ℕ → List Bytes → List Bytes
rebased_all current_pos [] = []
rebased_all current_pos (b ∷ bs) =
    rebased current_pos b ∷ rebased_all (add64 current_pos (length b)) bs

abbrev pub join : List Bytes → Bytes
join = wire_all (λ b. b)

-- What stops the loop: fewer than 27 bytes, or a batch that is cut off.
abbrev pub Stops : Bytes → Type 0
Stops tail = 27 ≤ length tail → length tail < 12 + batch_length tail

pub length-rebased : (pos : ℕ) (b : Bytes) → 8 ≤ length b → length (rebased pos b) ≡ length b
unfolding rebased
length-rebased pos b h =
    let t = target_base pos (length b) (last_offset_delta b) in
    omega (arith, length-append (put_uint64 t) (drop 8 b), length-put_uint64 t, length-drop 8 b)

-- Reads behind a prefix.
drop_behind :
    (done x rest : Bytes) (k pos : ℕ)
    → pos ≡ length done
    → k ≤ length x
    → drop (pos + k) (done ++ (x ++ rest)) ≡ drop k x ++ rest
drop_behind done x rest k pos p h =
    drop-drop pos k (pos + k) (done ++ (x ++ rest)) refl
    ∙ rw (p, drop-append_left done (x ++ rest)) (drop-append_le k x rest h)

uint32_behind : (b rest : Bytes) → 4 ≤ length b → uint32 (b ++ rest) ≡ uint32 b
unfolding uint32
uint32_behind (a ∷ b ∷ c ∷ d ∷ _) rest h = refl
uint32_behind [] rest h = absurd (omega arith)
uint32_behind (a ∷ []) rest h = absurd (omega arith)
uint32_behind (a ∷ b ∷ []) rest h = absurd (omega arith)
uint32_behind (a ∷ b ∷ c ∷ []) rest h = absurd (omega arith)

-- A write at the front of what stands behind a prefix.
put_behind :
    (done b rest : Bytes) (pos v : ℕ)
    → pos ≡ length done
    → 8 ≤ length b
    → put_uint64_at pos v (done ++ (b ++ rest)) ≡ (done ++ (put_uint64 v ++ drop 8 b)) ++ rest
unfolding put_uint64_at
put_behind done b rest pos v p h =
    let behind : drop (8 + pos) (done ++ (b ++ rest)) ≡ drop 8 b ++ rest =
      ap (λ (n : ℕ). drop n (done ++ (b ++ rest))) (omega arith)
      ∙ drop_behind done b rest 8 pos p h in
    rw (behind, p, take-append_left done (b ++ rest)) (simp append_assoc)

field_behind :
    (done b rest : Bytes) (k pos : ℕ)
    → pos ≡ length done
    → k + 4 ≤ length b
    → uint32 (drop (pos + k) (done ++ (b ++ rest))) ≡ uint32 (drop k b)
field_behind done b rest k pos p h =
    ap uint32 (drop_behind done b rest k pos p (omega arith))
    ∙ uint32_behind (drop k b) rest (omega (arith, length-drop k b))

-- One round over a whole batch.
patch_loop_round :
    (fuel cur pos : ℕ) (done b rest : Bytes)
    → pos ≡ length done
    → IsWhole b
    → patch_loop (suc fuel) cur pos (done ++ (b ++ rest))
      ≡ patch_loop fuel (add64 cur (length b)) (pos + length b) ((done ++ rebased cur b) ++ rest)
unfolding patch_loop rebased
patch_loop_round fuel cur pos done b rest p w =
    let payload = done ++ (b ++ rest) in
    let size = length-append done (b ++ rest) in
    let size' = length-append b rest in
    let room : leb (pos + 27) (length payload) ≡ true = ground (arith, w.long_enough) in
    let whole : ltb (length payload) (pos + length b) ≡ false = ground arith in
    let enough : 27 ≤ length b = w.long_enough in
    rw (
      field_behind done b rest 8 pos p (omega arith),
      field_behind done b rest 23 pos p (omega arith),
      w.exact,
      room,
      whole,
      put_behind done b rest pos (target_base cur (length b) (last_offset_delta b)) p (omega arith),
    )

-- The loop stops.
patch_loop-Stops :
    (fuel cur pos : ℕ) (done tail : Bytes)
    → pos ≡ length done
    → Stops tail
    → patch_loop fuel cur pos (done ++ tail) ≡ done ++ tail
unfolding patch_loop
patch_loop-Stops zero cur pos done tail p s = refl
patch_loop-Stops (suc fuel) cur pos done tail p s =
    let payload = done ++ tail in
    let size = length-append done tail in
    elim (le_or_lt 27 (length tail)) [
      | inl long ↦
          let here : uint32 (drop (pos + 8) payload) ≡ batch_length tail =
            ap (λ t. uint32 (drop (pos + 8) (done ++ t))) (sym (append-nil tail))
            ∙ field_behind done tail [] 8 pos p (omega arith) in
          let short = s long in
          let cut : ltb (length payload) (pos + (12 + batch_length tail)) ≡ true = ground arith in
          rw (here, cut) (ground arith)
      | inr short ↦ let room : leb (pos + 27) (length payload) ≡ false = ground arith in rw room
    ]

patch_loop-join :
    (fuel cur pos : ℕ) (done : Bytes) (bs : List Bytes) (tail : Bytes)
    → pos ≡ length done
    → All IsWhole bs
    → Stops tail
    → length (join bs) ≤ fuel
    → patch_loop fuel cur pos (done ++ (join bs ++ tail))
      ≡ done ++ (join (rebased_all cur bs) ++ tail)
unfolding rebased_all wire_all
patch_loop-join fuel cur pos done [] tail p w s f = patch_loop-Stops fuel cur pos done tail p s
patch_loop-join zero cur pos done (b ∷ bs) tail p w s f =
    let size = length-append b (join bs) in let enough = w.0.long_enough in absurd (omega arith)
patch_loop-join (suc fuel) cur pos done (b ∷ bs) tail p w s f =
    let size = length-append b (join bs) in
    let enough : 27 ≤ length b = w.0.long_enough in
    let size' = length-append done (rebased cur b) in
    let same = length-rebased cur b (omega arith) in
    ap (λ t. patch_loop (suc fuel) cur pos (done ++ t)) (append_assoc b (join bs) tail)
    ∙ patch_loop_round fuel cur pos done b (join bs ++ tail) p w.0
    ∙ patch_loop-join fuel (add64 cur (length b)) (pos + length b) (done ++ rebased cur b) bs tail
        (omega arith) w.1 s (omega arith)
    ∙ simp append_assoc

-- A payload of whole batches, and behind them perhaps fewer than 27 bytes or a batch that is cut
-- off, comes out with the base offset of each whole batch replaced, and with nothing else changed:
-- the loop reaches every batch before it runs out of rounds.
pub patch_batches-join :
    (fetch_offset : ℕ) (bs : List Bytes) (tail : Bytes)
    → All IsWhole bs
    → Stops tail
    → patch_batches fetch_offset (join bs ++ tail) ≡ join (rebased_all fetch_offset bs) ++ tail
unfolding patch_batches
patch_batches-join fetch_offset bs tail w s =
    patch_loop-join (length (join bs ++ tail)) fetch_offset 0 [] bs tail refl w s
      (omega (arith, length-append (join bs) tail))

-- The next offset of a client that has read a batch, which it takes to be the base offset plus the
-- last offset delta plus 1, is the place behind the record of that batch, if the offset of the
-- record and the length of the batch leave room in an int64 and the base offset does not wrap.
pub rebased-next :
    (pos : ℕ) (b : Bytes)
    → pos + 4 + length b < 0x8000_0000_0000_0000
    → last_offset_delta b < 0x8000_0000
    → last_offset_delta b < pos + 4 + length b
    → uint64 (rebased pos b) + last_offset_delta b + 1 ≡ pos + 4 + length b
unfolding rebased target_base
rebased-next pos b h d e =
    let t = target_base pos (length b) (last_offset_delta b) in
    omega (arith, uint64-put_uint64 t (drop 8 b))
