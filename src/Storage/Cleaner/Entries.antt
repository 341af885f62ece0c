-- ===== src/Storage/Cleaner/Entries.antt =====
-- What the loop of `CleanOldSegments` removes, and what it leaves.
use kage.Prelude.{
  ℕ, ◌+◌, ◌≡◌, refl, sym, ap, ◌∙◌, Bool-cases, inl, inr, Bool, true, false, not, ◌&&◌, ◌||◌, Option,
  none, some, List, [], ◌∷◌, arith, Bytes, bytes_eq, bytes_eq_iff, ltb, if◌then◌else◌,
}
use kage.Storage.Cleaner.{
  File, log_ext, has_suffix, index_of, find_file, drop_file, write_file, write_files, World, turn,
  later_by, settle, removed, remove, remove_index, remove_segment, clean_stated, clean_entry,
  clean_entries,
}

-- A closed log whose last change is not after the cutoff.
abbrev pub is_expired : ℕ → Bytes → File → Bool
is_expired cutoff active_log f =
    has_suffix f.name log_ext && (not (bytes_eq f.name active_log) && not (ltb cutoff f.modified))

-- The two names that go with a log.
abbrev pub goes_with : Bytes → Bytes → Bool
goes_with log name = bytes_eq log name || bytes_eq (index_of log) name

-- Whether a name is that of an expired log among the entries, or of the index of one.
abbrev pub is_doomed : ℕ → Bytes → List File → Bytes → Bool
is_doomed cutoff active_log [] name = false
is_doomed cutoff active_log (f ∷ fs) name =
    (is_expired cutoff active_log f && goes_with f.name name) || is_doomed cutoff active_log fs name

find_file-drop_file :
    (gone name : Bytes) (files : List File)
    → bytes_eq gone name ≡ false
    → find_file name (drop_file gone files) ≡ find_file name files
unfolding find_file drop_file
find_file-drop_file gone name [] h = refl
find_file-drop_file gone name (f ∷ fs) h = ground (
  arith,
  h,
  bytes_eq_iff gone f.name,
  bytes_eq_iff f.name name,
  bytes_eq_iff gone name,
  find_file-drop_file gone name fs h,
)

find_file-write_file :
    (f : File) (name : Bytes) (files : List File)
    → find_file name (write_file f files)
      ≡ (if bytes_eq f.name name then some f.content else find_file name files)
unfolding find_file write_file
find_file-write_file f name [] = refl
find_file-write_file f name (g ∷ gs) = ground (
  arith,
  bytes_eq_iff g.name f.name,
  bytes_eq_iff g.name name,
  bytes_eq_iff f.name name,
  find_file-write_file f name gs,
)

-- Two directories have the same file, or none, under a name.
abbrev pub SameAt : Bytes → List File → List File → Type 0
SameAt name a b = find_file name a ≡ find_file name b

pub write_files-SameAt :
    (name : Bytes) (fs a b : List File)
    → SameAt name a b
    → SameAt name (write_files fs a) (write_files fs b)
unfolding write_files
write_files-SameAt name [] a b h = h
write_files-SameAt name (f ∷ fs) a b h =
    write_files-SameAt name fs (write_file f a) (write_file f b) (
      find_file-write_file f name a
      ∙ ap (λ (o : Option Bytes). if bytes_eq f.name name then some f.content else o) h
      ∙ sym (find_file-write_file f name b))

pub settle-SameAt :
    (name : Bytes) (w : World) (a b : List File)
    → SameAt name a b
    → SameAt name (settle w a) (settle w b)
unfolding settle
settle-SameAt name [] a b h = h
settle-SameAt name (t ∷ w) a b h =
    settle-SameAt name w (write_files t.writes a) (write_files t.writes b)
      (write_files-SameAt name t.writes a b h)

-- What the others write is all that changes the directory in a call.
pub settle-turn :
    (w : World) (files : List File) → settle (turn w files).2 (turn w files).1 ≡ settle w files
unfolding settle turn
settle-turn [] files = refl
settle-turn (t ∷ w) files = refl

-- The others having written all they write, the file of a name is the same from two points on.
abbrev pub Untouched : Bytes → List File → World → List File → World → Type 0
Untouched name files' w' files w = SameAt name (settle w' files') (settle w files)

removed-SameAt :
    (o : Option ℕ) (gone name : Bytes) (files : List File)
    → bytes_eq gone name ≡ false
    → SameAt name (removed o gone files).1 files
unfolding removed
removed-SameAt none gone name files h = find_file-drop_file gone name files h
removed-SameAt (some _) gone name files h = refl

remove-Untouched :
    (w : World) (gone name : Bytes) (files : List File)
    → bytes_eq gone name ≡ false
    → let r = remove w gone files in Untouched name r.1 r.2 files w
unfolding remove
remove-Untouched w gone name files h =
    let (o, found, w') = turn w files in
    settle-SameAt name w' (removed o gone found).1 found (removed-SameAt o gone name found h)
    ∙ ap (find_file name) (settle-turn w files)

remove_index-Untouched :
    (log name : Bytes) (deleted : ℕ) (done : Bool) (files : List File) (w : World)
    → bytes_eq (index_of log) name ≡ false
    → let r = remove_index log deleted (done, files, w) in Untouched name r.1 r.2 files w
unfolding remove_index
remove_index-Untouched log name deleted false files w h = refl
remove_index-Untouched log name deleted true files w h =
    remove-Untouched w (index_of log) name files h

remove_segment-Untouched :
    (log name : Bytes) (deleted : ℕ) (files : List File) (w : World)
    → goes_with log name ≡ false
    → let r = remove_segment log (deleted, files, w) in Untouched name r.1 r.2 files w
unfolding remove_segment
remove_segment-Untouched log name deleted files w h =
    let (done, files', w') = remove w log files in
    remove_index-Untouched log name deleted done files' w' (ground (arith, h))
    ∙ remove-Untouched w log name files (ground (arith, h))

clean_stated-Untouched :
    (cutoff : ℕ) (f : File) (later : ℕ) (o : Option ℕ) (name : Bytes) (deleted : ℕ)
    (files : List File) (w : World)
    → (not (ltb cutoff f.modified) && goes_with f.name name) ≡ false
    → let r = clean_stated cutoff f later o (deleted, files, w) in Untouched name r.1 r.2 files w
unfolding clean_stated
clean_stated-Untouched cutoff f later (some _) name deleted files w h = refl
clean_stated-Untouched cutoff f later none name deleted files w h =
    elim (Bool-cases (ltb cutoff (f.modified + later))) [
      | inl young ↦ rw young
      | inr old ↦
          let was_old : ltb cutoff f.modified ≡ false = ground arith in
          rw old (remove_segment-Untouched f.name name deleted files w (ground (arith, h, was_old)))
    ]

clean_entry-Untouched :
    (cutoff : ℕ) (active_log name : Bytes) (f : File) (deleted : ℕ) (files : List File) (w : World)
    → (is_expired cutoff active_log f && goes_with f.name name) ≡ false
    → let r = clean_entry cutoff active_log f (deleted, files, w) in Untouched name r.1 r.2 files w
unfolding clean_entry
clean_entry-Untouched cutoff active_log name f deleted files w h =
    elim (Bool-cases (not (has_suffix f.name log_ext) || bytes_eq f.name active_log)) [
      | inl skip ↦ rw skip
      | inr candidate ↦
          let (o, found, w') = turn w files in
          rw candidate (
            clean_stated-Untouched cutoff f (later_by w) o name deleted found w'
              (ground (arith, h, candidate))
            ∙ ap (find_file name) (settle-turn w files))
    ]

pub clean_entries-Untouched :
    (cutoff : ℕ) (active_log name : Bytes) (fs : List File) (deleted : ℕ) (files : List File)
    (w : World)
    → is_doomed cutoff active_log fs name ≡ false
    → let r = clean_entries cutoff active_log fs (deleted, files, w) in
      Untouched name r.1 r.2 files w
unfolding clean_entries
clean_entries-Untouched cutoff active_log name [] deleted files w h = refl
clean_entries-Untouched cutoff active_log name (f ∷ fs) deleted files w h =
    let (deleted', files', w') = clean_entry cutoff active_log f (deleted, files, w) in
    clean_entries-Untouched cutoff active_log name fs deleted' files' w' (ground (arith, h))
    ∙ clean_entry-Untouched cutoff active_log name f deleted files w (ground (arith, h))
