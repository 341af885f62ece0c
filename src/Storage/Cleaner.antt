-- ===== src/Storage/Cleaner.antt =====
-- internal/storage/store.go, `CleanOldSegments`, and the sweep of `runLogCleaner` in
-- internal/storage/broker_store.go: the removal of closed segments that are older than the
-- retention. Neither holds the lock of a store while it works on the directory, so what the other
-- goroutines write there comes between the cleaner's system calls.
pub mod Names
pub mod Entries
pub mod Kept
pub mod Removed
pub mod Sweep
use kage.Prelude.{
  ℕ, zero, suc, ◌+◌, ◌-◌, Bool, true, false, not, ◌&&◌, ◌||◌, Option, none, some, List, [], ◌∷◌,
  ◌++◌, Bytes, bytes_eq, length, take, drop, leb, ltb, if◌then◌else◌,
}
use kage.Decimal.{digits}
use kage.Outcome.{Outcome, ok, err, panic}
use kage.Storage.Error.{StorageError, io}
use kage.Storage.Segment.{Files}
use kage.Storage.Store.{PartitionStore, Dir}

-- A file of a partition's directory. The time of its last change counts nanoseconds, from so far
-- back that every retention is less than the time now.
pub record File : Type 0 where
  pub name : Bytes
  pub modified : ℕ
  pub content : Bytes

abbrev pub log_ext : Bytes
log_ext = b'.' ∷ b'l' ∷ b'o' ∷ b'g' ∷ []

abbrev pub index_ext : Bytes
index_ext = b'.' ∷ b'i' ∷ b'n' ∷ b'd' ∷ b'e' ∷ b'x' ∷ []

abbrev pub zeros : ℕ → Bytes
zeros zero = []
zeros (suc n) = b'0' ∷ zeros n

-- `%020d`
unfoldable pub pad20 : ℕ → Bytes
pad20 n = zeros (20 - length (digits n)) ++ digits n

abbrev pub log_name : ℕ → Bytes
log_name base = pad20 base ++ log_ext

abbrev pub index_name : ℕ → Bytes
index_name base = pad20 base ++ index_ext

-- strings.HasSuffix and strings.TrimSuffix
unfoldable pub has_suffix : Bytes → Bytes → Bool
has_suffix s suffix =
    leb (length suffix) (length s) && bytes_eq (drop (length s - length suffix) s) suffix

unfoldable pub trim_suffix : Bytes → Bytes → Bytes
trim_suffix s suffix = if has_suffix s suffix then take (length s - length suffix) s else s

-- The name of the index beside a log.
unfoldable pub index_of : Bytes → Bytes
index_of name = trim_suffix name log_ext ++ index_ext

unfoldable pub find_file : Bytes → List File → Option Bytes
find_file name [] = none
find_file name (f ∷ fs) = if bytes_eq f.name name then some f.content else find_file name fs

unfoldable pub drop_file : Bytes → List File → List File
drop_file name [] = []
drop_file name (f ∷ fs) =
    let rest = drop_file name fs in if bytes_eq name f.name then rest else f ∷ rest

abbrev pub or_empty : Option Bytes → Bytes
or_empty none = []
or_empty (some content) = content

-- What the store sees of the directory under the names of a base offset.
abbrev pub files_at : List File → Dir
files_at files base = record {
  log = or_empty (find_file (log_name base) files);
  index = or_empty (find_file (index_name base) files);
}

-- What another goroutine does to the directory: a file gets this content and time, or comes in.
unfoldable pub write_file : File → List File → List File
write_file f [] = f ∷ []
write_file f (g ∷ gs) = if bytes_eq g.name f.name then f ∷ gs else g ∷ write_file f gs

unfoldable pub write_files : List File → List File → List File
write_files [] files = files
write_files (f ∷ fs) files = write_files fs (write_file f files)

-- One system call of the cleaner: what the other goroutines have written since the one before, how
-- the call ends, and, for one of Info, by how much the file's last change is later than it was when
-- the directory was read, since Info may look again.
pub record Turn : Type 0 where
  pub writes : List File
  pub outcome : Option ℕ
  pub later : ℕ

-- The calls to come; past the end of the list every call succeeds and nobody writes.
abbrev pub World : Type 0
World = List Turn

unfoldable pub turn : World → List File → Option ℕ × List File × World
turn [] files = (none, files, [])
turn (t ∷ w) files = (t.outcome, write_files t.writes files, w)

unfoldable pub later_by : World → ℕ
later_by [] = 0
later_by (t ∷ w) = t.later

-- The directory once everything that the others have still to write is there.
unfoldable pub settle : World → List File → List File
settle [] files = files
settle (t ∷ w) files = settle w (write_files t.writes files)

-- What os.Remove does as its outcome says; that there is no such file counts as success, as it does
-- in the source.
unfoldable pub removed : Option ℕ → Bytes → List File → Bool × List File
removed none name files = (true, drop_file name files)
removed (some _) name files = (false, files)

unfoldable pub remove : World → Bytes → List File → Bool × List File × World
remove w name files =
    let (o, found, w') = turn w files in
    let (done, files') = removed o name found in (done, files', w')

-- What the loop carries: the count, the directory, and the calls to come.
abbrev pub Progress : Type 0
Progress = ℕ × List File × World

-- The removal of the index, once that of the log has succeeded.
unfoldable pub remove_index : Bytes → ℕ → Bool × List File × World → Progress
remove_index name deleted (false, files, w) = (deleted, files, w)
remove_index name deleted (true, files, w) =
    let (done, files', w') = remove w (index_of name) files in
    (if done then suc deleted else deleted, files', w')

unfoldable pub remove_segment : Bytes → Progress → Progress
remove_segment name (deleted, files, w) = remove_index name deleted (remove w name files)

-- What follows the call of Info.
unfoldable pub clean_stated : ℕ → File → ℕ → Option ℕ → Progress → Progress
clean_stated cutoff f later (some _) p = p
clean_stated cutoff f later none p =
    if ltb cutoff (f.modified + later) then p else remove_segment f.name p

-- The body of the loop over the entries of the directory.
unfoldable pub clean_entry : ℕ → Bytes → File → Progress → Progress
clean_entry cutoff active_log f (deleted, files, w) =
    if not (has_suffix f.name log_ext) || bytes_eq f.name active_log
    then (deleted, files, w)
    else let (info, files', w') = turn w files in
      clean_stated cutoff f (later_by w) info (deleted, files', w')

unfoldable pub clean_entries : ℕ → Bytes → List File → Progress → Progress
clean_entries cutoff active_log [] p = p
clean_entries cutoff active_log (f ∷ fs) p =
    clean_entries cutoff active_log fs (clean_entry cutoff active_log f p)

-- The loop at the time `now`, once the directory has been read or not; the count is returned.
unfoldable pub clean_scanned :
    Option ℕ
    → ℕ
    → ℕ
    → PartitionStore
    → List File
    → World
    → Outcome StorageError ℕ × List File × World
clean_scanned (some _) now retention ps files w = (err io, files, w)
clean_scanned none now retention ps files w =
    let (deleted, files', w') =
      clean_entries (now - retention) (log_name ps.active.base_offset) files (0, files, w) in
    (ok deleted, files', w')

-- `ps` is the store as it is when the base offset is taken from it, under its lock.
unfoldable pub clean_old_segments :
    World → ℕ → ℕ → PartitionStore → List File → Outcome StorageError ℕ × List File × World
clean_old_segments w now retention ps files =
    let (scanned, found, w') = turn w files in clean_scanned scanned now retention ps found w'
