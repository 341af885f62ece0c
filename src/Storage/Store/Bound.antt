-- ===== src/Storage/Store/Bound.antt =====
-- A store delivers no more bytes than it was asked for.
use kage.Prelude.{
  ℕ, ◌+◌, ◌≤◌, ◌<◌, ◌≡◌, refl, true, false, inl, inr, Bool-cases, Option, none, some, arith, Bytes,
  length, length-take, length-drop, drop, take, ltb, slt64, is_neg32, is_neg64, add32, add64, ◌==◌,
}
use kage.Outcome.{Outcome, ok, err, panic}
use kage.Storage.Error.{StorageError}
use kage.Storage.Bufio.{Os, call, flush}
use kage.Storage.Segment
use kage.Storage.Segment.{Segment, Section, pread, read_section}
use kage.Storage.Store.{PartitionStore, cap_bytes, served, read}

-- A section that the segment hands out is the window that was asked for.
abbrev Asked : Segment → ℕ → ℕ → Outcome StorageError Section → Type 0
Asked s offset n (ok section) =
    (section ≡ record { offset = offset; size = n }) × (is_neg32 n ≡ false)
Asked s offset n (err e) = Unit {0}
Asked s offset n panic = Unit {0}

read-Asked :
    (os : Os) (s : Segment) (offset n : ℕ) → Asked s offset n (Segment.read os s offset n).0
unfolding Segment.read
read-Asked os s offset n = elim (Bool-cases (is_neg32 n)) [
  | inl a ↦ simp a tt
  | inr a ↦ elim (Bool-cases (n == 0)) [
    | inl b ↦ simp (a, b) tt
    | inr b ↦ elim (Bool-cases (slt64 offset s.size)) [
      | inr c ↦ simp (a, b, c) tt
      | inl c ↦ elim (Bool-cases (slt64 s.size (add64 offset n))) [
        | inl d ↦ simp (a, b, c, d) tt
        | inr d ↦ elim (Bool-cases (flush os s.bw).0) [
          | inr e ↦ simp (a, b, c, d, e) tt
          | inl e ↦ simp (a, b, c, d, e) (refl, refl)
        ]
      ]
    ]
  ]
]

-- What is read is as long as was asked for, and not read from before the start.
abbrev Exact : ℕ → ℕ → Option Bytes → Type 0
Exact at n none = Unit {0}
Exact at n (some raw) = (length raw ≡ n) × (is_neg64 at ≡ false)

pread-Exact : (o : Option ℕ) (file : Bytes) (at n : ℕ) → Exact at n (pread o file at n)
unfolding pread
pread-Exact (some e) file at n = tt
pread-Exact none file at n = elim (Bool-cases (is_neg64 at)) [
  | inl a ↦ simp a tt
  | inr a ↦ elim (Bool-cases (ltb (length file) (at + n))) [
    | inl b ↦ simp (a, b) tt
    | inr b ↦
        let size : length (take n (drop at file)) ≡ n =
          ground (arith, length-take n (drop at file), length-drop at file) in
        simp (a, b) (size, refl)
  ]
]

read_section-Exact :
    (os : Os) (s : Segment) (r : Section) (n : ℕ) → Exact r.offset n (read_section os s r n).0
unfolding read_section
read_section-Exact os s r n = elim (Bool-cases (ltb r.size n)) [
  | inl a ↦ simp a tt
  | inr a ↦ simp a (pread-Exact (call os s.bw).0 s.bw.file r.offset n)
]

-- At most `n` bytes.
abbrev pub AtMost : ℕ → Option Bytes → Type 0
AtMost n none = Unit {0}
AtMost n (some raw) = length raw ≤ n

Exact-AtMost :
    (at n m : ℕ) (o : Option Bytes) → Exact at n o → (is_neg64 at ≡ false → n ≤ m) → AtMost m o
Exact-AtMost at n m none e h = tt
Exact-AtMost at n m (some raw) e h = let x = h (e.1) in omega (arith, e.0)

-- What the store's answer delivers.
abbrev pub Delivers : ℕ → Outcome StorageError (Section × ℕ) × PartitionStore × Os → Type 0
Delivers m (ok (section, n), ps, os) = AtMost m (read_section os ps.active section n).0
Delivers m (err e, ps, os) = Unit {0}
Delivers m (panic, ps, os) = Unit {0}

served-Delivers :
    (ps : PartitionStore) (s : Segment) (offset n m : ℕ)
    (r : Outcome StorageError Section × Segment × Os)
    → Asked s offset n (r.0)
    → (is_neg32 n ≡ false → is_neg64 offset ≡ false → n ≤ m)
    → Delivers m (served ps n r)
unfolding served
served-Delivers ps s offset n m (ok section, seg, os) a h = rw (a.0) (
    Exact-AtMost offset n m (read_section os seg (record { offset = offset; size = n }) n).0
      (read_section-Exact os seg (record { offset = offset; size = n }) n) (h (a.1)))
served-Delivers ps s offset n m (err e, seg, os) a h = tt
served-Delivers ps s offset n m (panic, seg, os) a h = tt

cap_bytes-le :
    (ps : PartitionStore) (offset cap : ℕ)
    → 0 < cap
    → cap < 0x8000_0000
    → slt64 offset ps.active.size ≡ true
    → is_neg32 (cap_bytes ps offset (add32 cap 4)) ≡ false
    → is_neg64 offset ≡ false
    → cap_bytes ps offset (add32 cap 4) ≤ cap + 4
unfolding cap_bytes
cap_bytes-le ps offset cap p h i k l = ground arith

-- What `Read` of the store delivers for a maximum of `cap + 4` is no longer than that, whatever the
-- store holds.
pub read-Delivers :
    (os : Os) (ps : PartitionStore) (offset cap : ℕ)
    → 0 < cap
    → cap < 0x8000_0000
    → Delivers (cap + 4) (read os ps offset (add32 cap 4))
unfolding read
read-Delivers os ps offset cap p h = elim (Bool-cases (slt64 offset ps.active.size)) [
  | inr a ↦ simp a tt
  | inl a ↦
      let n = cap_bytes ps offset (add32 cap 4) in
      simp a (
        served-Delivers ps ps.active offset n (cap + 4) (Segment.read os ps.active offset n)
          (read-Asked os ps.active offset n) (cap_bytes-le ps offset cap p h a))
]
