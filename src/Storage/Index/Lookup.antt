-- ===== src/Storage/Index/Lookup.antt =====
-- The binary search of the index against a scan of all its entries.
use kage.Prelude.{
  ℕ, zero, suc, ◌+◌, ◌-◌, ◌/◌, ◌≤◌, ◌<◌, ◌≡◌, refl, sym, le_or_lt, inl, inr, ◌∙◌, Bool-cases,
  length-eq-zero, ==_iff, Option, none, some, List, [], ◌∷◌, arith, length, leb, get_elem?,
  if◌then◌else◌, ◌==◌,
}
use mathlib.Core.Option
use kage.Storage.Index.{Entry, Index, lookup_loop, lookup}

-- The last of the entries whose offset is at most `target`, or `acc` if there is none.
unfoldable pub scan : List Entry → ℕ → Option Entry → Option Entry
scan [] target acc = acc
scan (e ∷ es) target acc = scan es target (if leb e.offset target then some e else acc)

-- The offsets never fall. An index past the end is no entry.
abbrev pub IsSorted : List Entry → Type 0
IsSorted es =
    (i j : ℕ) (a b : Entry)
    → i ≤ j
    → get_elem? es i ≡ some a
    → get_elem? es j ≡ some b
    → a.offset ≤ b.offset

-- From `lo` on all offsets are above `target`.
abbrev Above : List Entry → ℕ → ℕ → Type 0
Above es target lo = (i : ℕ) (a : Entry) → lo ≤ i → get_elem? es i ≡ some a → target < a.offset

-- What the search has found so far: the entry below `lo`, whose offset is at most `target`.
abbrev Found : List Entry → ℕ → ℕ → Option Entry → Type 0
Found es target lo none = lo ≡ 0
Found es target lo (some e) = (0 < lo) × (get_elem? es (lo - 1) ≡ some e) × (e.offset ≤ target)

scan-Above :
    (es : List Entry) (target : ℕ) (acc : Option Entry)
    → Above es target 0
    → scan es target acc ≡ acc
unfolding scan
scan-Above [] target acc h = refl
scan-Above (e ∷ es) target acc h =
    ground (arith, h 0 e, scan-Above es target acc (λ i a k p. h (suc i) a (omega arith) p))

-- An entry with none at most `target` behind it is the one that the scan returns.
scan_found :
    (es : List Entry) (target r : ℕ) (e : Entry) (acc : Option Entry)
    → get_elem? es r ≡ some e
    → e.offset ≤ target
    → Above es target (suc r)
    → scan es target acc ≡ some e
unfolding scan
scan_found [] target r e acc p q h = absurd (ground arith)
scan_found (x ∷ es) target zero e acc p q h =
    ground (arith, scan-Above es target (some e) (λ i a k s. h (suc i) a (omega arith) s))
scan_found (x ∷ es) target (suc r) e acc p q h =
    scan_found es target r e (if leb x.offset target then some x else acc) p q
      (λ i a k s. h (suc i) a (omega arith) s)

-- An index inside the list has an entry.
entry_at : (es : List Entry) (i : ℕ) → i < length es → (e : Entry) × (get_elem? es i ≡ some e)
entry_at [] i h = absurd (omega arith)
entry_at (e ∷ es) zero h = (e, refl)
entry_at (e ∷ es) (suc i) h = entry_at es i (omega arith)

-- One round of the loop.
module _ (es : List Entry) (target fuel lo hi : ℕ) (result : Option Entry) where
  loop_ends : hi ≤ lo → lookup_loop fuel es target lo hi result ≡ result
  unfolding lookup_loop
  loop_ends h = elim fuel as (λ f. lookup_loop f es target lo hi result ≡ result) [
    | zero ↦ refl
    | suc f ↦ ground arith
  ]

  loop_up :
      (mid : ℕ) (e : Entry)
      → lo < hi
      → mid ≡ (lo + (hi - 1)) / 2
      → get_elem? es mid ≡ some e
      → e.offset ≤ target
      → lookup_loop (suc fuel) es target lo hi result
        ≡ lookup_loop fuel es target (mid + 1) hi (some e)
  unfolding lookup_loop
  loop_up mid e h m p q = ground arith

  loop_down :
      (mid : ℕ) (e : Entry)
      → lo < hi
      → mid ≡ (lo + (hi - 1)) / 2
      → get_elem? es mid ≡ some e
      → target < e.offset
      → lookup_loop (suc fuel) es target lo hi result ≡ lookup_loop fuel es target lo mid result
  unfolding lookup_loop
  loop_down mid e h m p q = ground arith

module _ (es : List Entry) (target : ℕ) (sorted : IsSorted es) where
  Found-scan :
      (lo : ℕ) (result : Option Entry)
      → Found es target lo result
      → Above es target lo
      → result ≡ scan es target none
  Found-scan lo none f h = sym (scan-Above es target none (rw f at h))
  Found-scan lo (some e) (p, q, r) h =
      sym (scan_found es target (lo - 1) e none q r (λ i a k s. h i a (omega arith) s))

  Above-mid :
      (mid : ℕ) (e : Entry) → get_elem? es mid ≡ some e → target < e.offset → Above es target mid
  Above-mid mid e p q i a k s = omega (arith, sorted mid i e a k p s)

  lookup_loop-scan :
      (fuel lo hi : ℕ) (result : Option Entry)
      → hi ≤ lo + fuel
      → lo ≤ hi
      → hi ≤ length es
      → Found es target lo result
      → Above es target hi
      → lookup_loop fuel es target lo hi result ≡ scan es target none
  lookup_loop-scan zero lo hi result f o n found above =
      loop_ends es target zero lo hi result (omega arith)
      ∙ Found-scan lo result found (λ i a k s. above i a (omega arith) s)
  lookup_loop-scan (suc fuel) lo hi result f o n found above = elim (le_or_lt hi lo) [
    | inl done ↦
        loop_ends es target (suc fuel) lo hi result done
        ∙ Found-scan lo result found (λ i a k s. above i a (omega arith) s)
    | inr more ↦
        let mid = (lo + (hi - 1)) / 2 in
        let (e, p) = entry_at es mid (omega arith) in
        let same : mid + 1 - 1 ≡ mid = omega arith in
        elim (le_or_lt e.offset target) [
          | inl q ↦
              loop_up es target fuel lo hi result mid e more refl p q
              ∙ lookup_loop-scan fuel (mid + 1) hi (some e) (omega arith) (omega arith) n
                  (omega arith, rw same p, q) above
          | inr q ↦
              loop_down es target fuel lo hi result mid e more refl p q
              ∙ lookup_loop-scan fuel lo mid result (omega arith) (omega arith) (omega arith) found
                  (Above-mid mid e p q)
        ]
  ]

no_entry : (es : List Entry) (i : ℕ) (e : Entry) → length es ≤ i → get_elem? es i ≡ some e → ⊥
no_entry [] i e h p = ground arith
no_entry (x ∷ es) zero e h p = omega arith
no_entry (x ∷ es) (suc i) e h p = no_entry es i e (omega arith) p

position_or_none :
    (o : Option Entry)
    → ◌≡◌ {A = Option ℕ}
        (elim o [ none ↦ none | some e ↦ some e.position ])
        (Option.map (λ e. e.position) o)
position_or_none none = refl
position_or_none (some e) = refl

-- When the offsets of the entries never fall, the binary search returns the position of the last
-- entry whose offset is at most `target`, or nothing if there is none: what a scan of all the
-- entries finds.
pub lookup-scan :
    (idx : Index) (target : ℕ)
    → IsSorted idx.entries
    → lookup idx target ≡ Option.map (λ e. e.position) (scan idx.entries target none)
unfolding lookup
lookup-scan idx target sorted = elim (Bool-cases (length idx.entries == 0)) [
  | inl z ↦
      let nil = length-eq-zero idx.entries ((==_iff _ _).0 z) in simp nil (unfold scan in refl)
  | inr z ↦
      simp
        (
          z,
          lookup_loop-scan idx.entries target sorted (length idx.entries) 0 (length idx.entries)
              none (omega arith) (omega arith) (omega arith) refl
              (λ i a k s. absurd (no_entry idx.entries i a k s)),
        )
        (position_or_none (scan idx.entries target none))
]
