-- ===== src/Storage/Cleaner/Kept.antt =====
-- The segments that `CleanOldSegments` leaves alone.
use kage.Prelude.{
  ℕ, ◌-◌, ◌<◌, ◌≡◌, ◌⊎◌, refl, sym, ap, ◌∙◌, Bool-cases, inl, inr, true, false, ◌&&◌, Option, none,
  some, List, [], ◌∷◌, arith, Bytes, bytes_eq, bytes_eq_iff, All,
}
use kage.Storage.Store.{PartitionStore}
use kage.Storage.Cleaner.{
  File, log_ext, pad20, log_name, index_name, has_suffix, trim_suffix, index_of, find_file,
  files_at, World, turn, settle, clean_scanned, clean_old_segments,
}
use kage.Storage.Cleaner.Entries.{
  is_expired, goes_with, is_doomed, SameAt, settle-turn, clean_entries-Untouched,
}
use kage.Storage.Cleaner.Names.{trim_suffix-append, log-ne-index, index_of-index_name}

-- The active segment, or one whose log, if there is one, has changed after the cutoff.
abbrev pub Spared : ℕ → ℕ → List File → ℕ → Type 0
Spared cutoff active files base =
    (base ≡ active) ⊎ All (λ f. f.name ≡ log_name base → cutoff < f.modified) files

-- An expired log goes with a log's name only if it is that log.
goes_with-log_name :
    (name : Bytes) (base : ℕ) → goes_with name (log_name base) ≡ true → name ≡ log_name base
unfolding index_of
goes_with-log_name name base h = elim (Bool-cases (bytes_eq name (log_name base))) [
  | inl same ↦ (bytes_eq_iff name (log_name base)).0 same
  | inr other ↦ absurd (
      log-ne-index (pad20 base) (trim_suffix name log_ext)
        (sym ((bytes_eq_iff (index_of name) (log_name base)).0 (ground (arith, h, other)))))
]

goes_with-index_name :
    (name : Bytes) (base : ℕ)
    → has_suffix name log_ext ≡ true
    → goes_with name (index_name base) ≡ true
    → name ≡ log_name base
goes_with-index_name name base e h = elim (Bool-cases (bytes_eq name (index_name base))) [
  | inl same ↦ absurd (
      log-ne-index (trim_suffix name log_ext) (pad20 base)
        (trim_suffix-append name log_ext e ∙ (bytes_eq_iff name (index_name base)).0 same))
  | inr other ↦
      index_of-index_name name base e
        ((bytes_eq_iff (index_of name) (index_name base)).0 (ground (arith, h, other)))
]

-- A segment that is spared has no expired log.
not_expired :
    (cutoff active base : ℕ) (f : File)
    → (base ≡ active) ⊎ (f.name ≡ log_name base → cutoff < f.modified)
    → is_expired cutoff (log_name active) f ≡ true
    → f.name ≡ log_name base
    → ⊥
not_expired cutoff active base f (inl same) e n =
    let x = (bytes_eq_iff f.name (log_name active)).1 (n ∙ ap log_name same) in ground (arith, e, x)
not_expired cutoff active base f (inr young) e n = ground (arith, e, young n)

-- So the names of its files are not doomed.
is_doomed-Spared :
    (cutoff active base : ℕ) (files : List File) (name : Bytes)
    → ((f : File)
        → is_expired cutoff (log_name active) f ≡ true
        → goes_with f.name name ≡ true
        → f.name ≡ log_name base)
    → Spared cutoff active files base
    → is_doomed cutoff (log_name active) files name ≡ false
is_doomed-Spared cutoff active base [] name its s = refl
is_doomed-Spared cutoff active base (f ∷ fs) name its s =
    let here : (base ≡ active) ⊎ (f.name ≡ log_name base → cutoff < f.modified) = elim s [
      | inl same ↦ inl same
      | inr young ↦ inr young.0
    ] in
    let rest =
      is_doomed-Spared cutoff active base fs name its
        (elim s [ inl same ↦ inl same | inr young ↦ inr young.1 ]) in
    let no = not_expired cutoff active base f here in
    elim (Bool-cases (is_expired cutoff (log_name active) f && goes_with f.name name)) [
      | inl doomed ↦
          absurd
            (no (ground (arith, doomed)) (its f (ground (arith, doomed)) (ground (arith, doomed))))
      | inr fine ↦ rw (fine, rest)
    ]

-- The two files of a base offset are the same in two directories.
abbrev pub SameFiles : ℕ → List File → List File → Type 0
SameFiles base a b = SameAt (log_name base) a b × SameAt (index_name base) a b

pub files_at-SameFiles :
    (base : ℕ) (a b : List File) → SameFiles base a b → files_at a base ≡ files_at b base
files_at-SameFiles base a b h = rw (h.0, h.1)

clean_scanned-SameFiles :
    (scanned : Option ℕ) (now retention : ℕ) (ps : PartitionStore) (files : List File) (w : World)
    (base : ℕ)
    → Spared (now - retention) ps.active.base_offset files base
    → let r = clean_scanned scanned now retention ps files w in
      SameFiles base (settle r.2 r.1) (settle w files)
unfolding clean_scanned
clean_scanned-SameFiles (some _) now retention ps files w base s = (refl, refl)
clean_scanned-SameFiles none now retention ps files w base s =
    let cutoff = now - retention in
    let active = ps.active.base_offset in
    let log =
      is_doomed-Spared cutoff active base files (log_name base)
        (λ f e g. goes_with-log_name f.name base g) s in
    let index =
      is_doomed-Spared cutoff active base files (index_name base)
        (λ f e g. goes_with-index_name f.name base (ground (arith, e)) g) s in
    (
      clean_entries-Untouched cutoff (log_name active) (log_name base) files 0 files w log,
      clean_entries-Untouched cutoff (log_name active) (index_name base) files 0 files w index,
    )

pub clean_old_segments-SameFiles :
    (w : World) (now retention : ℕ) (ps : PartitionStore) (files : List File) (base : ℕ)
    → Spared (now - retention) ps.active.base_offset (turn w files).1 base
    → let r = clean_old_segments w now retention ps files in
      SameFiles base (settle r.2 r.1) (settle w files)
unfolding clean_old_segments
clean_old_segments-SameFiles w now retention ps files base s =
    let (scanned, found, w') = turn w files in
    let same = settle-turn w files in
    let (log, index) = clean_scanned-SameFiles scanned now retention ps found w' base s in
    (
      log ∙ ap (λ d. find_file (log_name base) d) same,
      index ∙ ap (λ d. find_file (index_name base) d) same,
    )

-- Whatever the system calls do, and whatever other goroutines write to the directory between them,
-- `CleanOldSegments` does not touch the files of the segment that was active when it began, nor
-- those of a segment whose log, as the directory is read, has changed after the time that is the
-- retention before now: once the others have written all they write, those files are what they
-- are without the cleaner.
pub clean_old_segments-kept :
    (w : World) (now retention : ℕ) (ps : PartitionStore) (files : List File) (base : ℕ)
    → Spared (now - retention) ps.active.base_offset (turn w files).1 base
    → let r = clean_old_segments w now retention ps files in
      files_at (settle r.2 r.1) base ≡ files_at (settle w files) base
clean_old_segments-kept w now retention ps files base s =
    let r = clean_old_segments w now retention ps files in
    files_at-SameFiles base (settle r.2 r.1) (settle w files)
      (clean_old_segments-SameFiles w now retention ps files base s)
