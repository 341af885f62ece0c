-- ===== src/Server/Patch/Size.antt =====
-- The loop that patches a payload keeps its length.
use kage.Prelude.{
  ℕ, zero, suc, ◌+◌, ◌≤◌, ◌≡◌, refl, ◌∙◌, inl, inr, Bool-cases, ◌++◌, arith, Bytes, length,
  length-append, length-drop, length-take, take, drop, leb, ltb, add64,
}
use kage.Binary.{put_uint64, uint32}
use kage.Binary.RoundTrip.{length-put_uint64}
use kage.Server.Patch.{put_uint64_at, target_base, patch_loop, patch_batches}

length-put_uint64_at :
    (pos v : ℕ) (b : Bytes) → pos + 8 ≤ length b → length (put_uint64_at pos v b) ≡ length b
unfolding put_uint64_at
length-put_uint64_at pos v b h = omega (
  arith,
  length-append (take pos b) (put_uint64 v ++ drop (8 + pos) b),
  length-append (put_uint64 v) (drop (8 + pos) b),
  length-put_uint64 v,
  length-take pos b,
  length-drop (8 + pos) b,
)

length-patch_loop :
    (fuel cur pos : ℕ) (payload : Bytes) → length (patch_loop fuel cur pos payload) ≡ length payload
unfolding patch_loop
length-patch_loop zero cur pos payload = refl
length-patch_loop (suc fuel) cur pos payload =
    let size = 12 + uint32 (drop (pos + 8) payload) in
    let base = target_base cur size (uint32 (drop (pos + 23) payload)) in
    elim (Bool-cases (leb (pos + 27) (length payload))) [
      | inr short ↦ simp short
      | inl long ↦ elim (Bool-cases (ltb (length payload) (pos + size))) [
        | inl cut ↦ simp (long, cut)
        | inr whole ↦
            simp (long, whole)
              (length-patch_loop fuel (add64 cur size) (pos + size) (put_uint64_at pos base payload)
                ∙ length-put_uint64_at pos base payload (ground arith))
      ]
    ]

pub length-patch_batches :
    (fetch_offset : ℕ) (payload : Bytes)
    → length (patch_batches fetch_offset payload) ≡ length payload
unfolding patch_batches
length-patch_batches fetch_offset payload =
    length-patch_loop (length payload) fetch_offset 0 payload
