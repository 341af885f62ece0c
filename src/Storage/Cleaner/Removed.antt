-- ===== src/Storage/Cleaner/Removed.antt =====
-- What `CleanOldSegments` removes when every system call succeeds.
use kage.Prelude.{
  ℕ, suc, ◌+◌, ◌-◌, ◌≡◌, refl, sym, ap, Bool-cases, inl, inr, true, false, not, ◌||◌, List, [], ◌∷◌,
  arith, Bytes, bytes_eq, ltb, if◌then◌else◌,
}
use kage.Outcome.{ok}
use kage.Storage.Store.{PartitionStore}
use kage.Storage.Cleaner.{
  File, turn, later_by, log_ext, log_name, has_suffix, index_of, drop_file, removed, remove,
  remove_index, remove_segment, clean_stated, clean_entry, clean_entries, clean_scanned,
  clean_old_segments,
}
use kage.Storage.Cleaner.Entries.{is_expired, is_doomed}

-- The files whose names are not doomed by the entries `es`.
abbrev pub survivors : ℕ → Bytes → List File → List File → List File
survivors cutoff active_log es [] = []
survivors cutoff active_log es (f ∷ fs) =
    let rest = survivors cutoff active_log es fs in
    if is_doomed cutoff active_log es f.name then rest else f ∷ rest

abbrev pub count_expired : ℕ → Bytes → List File → ℕ
count_expired cutoff active_log [] = 0
count_expired cutoff active_log (f ∷ fs) =
    (if is_expired cutoff active_log f then 1 else 0) + count_expired cutoff active_log fs

module _ (cutoff : ℕ) (active_log : Bytes) where
  survivors-nil : (fs : List File) → survivors cutoff active_log [] fs ≡ fs
  survivors-nil [] = refl
  survivors-nil (f ∷ fs) = rw (survivors-nil fs)

  survivors-fresh :
      (e : File) (es fs : List File)
      → is_expired cutoff active_log e ≡ false
      → survivors cutoff active_log (e ∷ es) fs ≡ survivors cutoff active_log es fs
  survivors-fresh e es [] h = refl
  survivors-fresh e es (f ∷ fs) h = rw (h, survivors-fresh e es fs h)

  -- The entries after an expired one find the directory without its two files.
  survivors-expired :
      (e : File) (es fs : List File)
      → is_expired cutoff active_log e ≡ true
      → survivors cutoff active_log es (drop_file (index_of e.name) (drop_file e.name fs))
        ≡ survivors cutoff active_log (e ∷ es) fs
  unfolding drop_file
  survivors-expired e es [] h = refl
  survivors-expired e es (f ∷ fs) h = elim (Bool-cases (bytes_eq e.name f.name)) [
    | inl log ↦ rw (h, log, survivors-expired e es fs h)
    | inr no_log ↦ elim (Bool-cases (bytes_eq (index_of e.name) f.name)) [
      | inl index ↦ rw (h, no_log, index, survivors-expired e es fs h)
      | inr no_index ↦ rw (h, no_log, no_index, survivors-expired e es fs h)
    ]
  ]

  clean_entry-fresh :
      (e : File) (n : ℕ) (fs : List File)
      → is_expired cutoff active_log e ≡ false
      → clean_entry cutoff active_log e (n, fs, []) ≡ (n, fs, [])
  unfolding clean_entry clean_stated turn later_by
  clean_entry-fresh e n fs h =
      elim (Bool-cases (not (has_suffix e.name log_ext) || bytes_eq e.name active_log)) [
        | inl skip ↦ rw skip
        | inr candidate ↦
            let young : ltb cutoff (e.modified + 0) ≡ true = ground (arith, h, candidate) in
            rw (candidate, young)
      ]

  clean_entry-expired :
      (e : File) (n : ℕ) (fs : List File)
      → is_expired cutoff active_log e ≡ true
      → clean_entry cutoff active_log e (n, fs, [])
        ≡ (suc n, drop_file (index_of e.name) (drop_file e.name fs), [])
  unfolding clean_entry clean_stated remove_segment remove_index remove removed turn later_by
  clean_entry-expired e n fs h =
      let candidate : (not (has_suffix e.name log_ext) || bytes_eq e.name active_log) ≡ false =
        ground (arith, h) in
      let old : ltb cutoff (e.modified + 0) ≡ false = ground (arith, h) in rw (candidate, old)

  clean_entries-all :
      (es : List File) (n : ℕ) (fs : List File)
      → clean_entries cutoff active_log es (n, fs, [])
        ≡ (n + count_expired cutoff active_log es, survivors cutoff active_log es fs, [])
  unfolding clean_entries
  clean_entries-all [] n fs = rw (survivors-nil fs) (ap (λ (k : ℕ). (k, fs, [])) (omega arith))
  clean_entries-all (e ∷ es) n fs = elim (Bool-cases (is_expired cutoff active_log e)) [
    | inl old ↦
        let total : suc n + count_expired cutoff active_log es
            ≡ n + (1 + count_expired cutoff active_log es) =
          omega arith in
        rw (
          clean_entry-expired e n fs old,
          clean_entries-all es (suc n) (drop_file (index_of e.name) (drop_file e.name fs)),
          survivors-expired e es fs old,
          old,
          total,
        )
    | inr fresh ↦
        let total : n + (0 + count_expired cutoff active_log es)
            ≡ n + count_expired cutoff active_log es =
          omega arith in
        rw (clean_entry-fresh e n fs fresh, clean_entries-all es n fs, fresh, total)
          (ap (λ (fs' : List File). (n + count_expired cutoff active_log es, fs', []))
            (sym (survivors-fresh e es fs fresh)))
  ]

-- With every system call succeeding and nobody else writing to the directory, `CleanOldSegments` removes exactly the closed logs whose last
-- change is not after the time that is the retention before now, and the files that are named like
-- their indexes, keeps the others in their order, and returns the number of those logs.
pub clean_old_segments-removed :
    (now retention : ℕ) (ps : PartitionStore) (files : List File)
    → let cutoff = now - retention in
      let active_log = log_name ps.active.base_offset in
      clean_old_segments [] now retention ps files
      ≡ (ok (count_expired cutoff active_log files), survivors cutoff active_log files files, [])
unfolding clean_old_segments clean_scanned turn
clean_old_segments-removed now retention ps files =
    let cutoff = now - retention in
    let active_log = log_name ps.active.base_offset in
    let zero_left : 0 + count_expired cutoff active_log files
        ≡ count_expired cutoff active_log files =
      omega arith in
    rw (clean_entries-all cutoff active_log files 0 files, zero_left)
