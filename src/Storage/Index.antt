-- ===== src/Storage/Index.antt =====
-- internal/storage/index.go: the sparse index of a segment, from logical offsets to positions in
-- the log file.
pub mod Lookup
pub mod Codec
use kage.Prelude.{
  ℕ, zero, suc, ◌+◌, ◌-◌, ◌/◌, Bool, true, false, Option, none, some, List, [], ◌∷◌, ◌++◌, Bytes,
  length, leb, ltb, get_elem?, add64, slt64, ◌==◌, if◌then◌else◌,
}
use kage.Binary.{put_uint32, put_uint64, uint32, uint64}
use kage.Storage.Bufio.{Os, Writer, new_writer, write, flush, call}

-- The log bytes between two entries, and the buffer's capacity.
abbrev pub index_interval_bytes : ℕ
index_interval_bytes = 4096

abbrev pub index_write_buffer_size : ℕ
index_write_buffer_size = 65536

pub record Entry : Type 0 where
  pub offset : ℕ
  pub position : ℕ

pub record Index : Type 0 where
  pub bw : Writer
  pub entries : List Entry
  pub bytes_written_since_last_entry : ℕ

-- The twelve bytes of an entry.
unfoldable pub put_entry : Entry → Bytes
put_entry e = put_uint64 e.offset ++ put_uint32 e.position

-- The loop of `loadEntries`: io.ReadFull of twelve bytes until fewer are left.
unfoldable pub load_entries : Bytes → List Entry
load_entries (a ∷ b ∷ c ∷ d ∷ e ∷ f ∷ g ∷ h ∷ i ∷ j ∷ k ∷ l ∷ rest) =
    record {
      offset = uint64 (a ∷ b ∷ c ∷ d ∷ e ∷ f ∷ g ∷ h ∷ []);
      position = uint32 (i ∷ j ∷ k ∷ l ∷ []);
    }
    ∷ load_entries rest
load_entries _ = []

-- `openIndex` and `loadEntries` over the file's content: the opening, the seek, the stat and the
-- reading may each fail.
unfoldable pub open_index : Os → Bytes → Option Index × Os
open_index os content =
    let w = new_writer content in
    let (opened, os1) = call os w in
    let (sought, os2) = call os1 w in
    let (stated, os3) = call os2 w in
    let (loaded, os4) = call os3 w in
    let idx : Index = record {
      bw = w;
      entries = load_entries content;
      bytes_written_since_last_entry = 0;
    } in
    elim opened [
      | some _ ↦ (none, os1)
      | none ↦ elim sought [
        | some _ ↦ (none, os2)
        | none ↦ elim stated [
          | some _ ↦ (none, os3)
          | none ↦ elim loaded [ some _ ↦ (none, os4) | none ↦ (some idx, os4) ]
        ]
      ]
    ]

-- `false` is the error of the write.
unfoldable pub maybe_append : Os → Index → ℕ → ℕ → ℕ → Bool × Index × Os
maybe_append os idx log_offset position record_size =
    let since = add64 idx.bytes_written_since_last_entry record_size in
    if slt64 since index_interval_bytes
    then (true, record idx { bytes_written_since_last_entry = since }, os)
    else let e : Entry = record { offset = log_offset; position = position } in
      let (done, bw', os') = write index_write_buffer_size os idx.bw (put_entry e) in
      if done
      then (
        true,
        record { bw = bw'; entries = idx.entries ++ e ∷ []; bytes_written_since_last_entry = 0 },
        os',
      )
      else (false, record idx { bw = bw'; bytes_written_since_last_entry = since }, os')

-- The loop of `Lookup`. `hi` here is one more than in the source, where it can be -1, so the range
-- is [lo, hi); `result` is `none` for -1. Each round narrows the range, and `length entries` rounds
-- are given.
unfoldable pub lookup_loop : ℕ → List Entry → ℕ → ℕ → ℕ → Option Entry → Option Entry
lookup_loop zero entries target lo hi result = result
lookup_loop (suc fuel) entries target lo hi result =
    let mid = (lo + (hi - 1)) / 2 in
    elim (ltb lo hi) [
      | false ↦ result
      | true ↦ elim (get_elem? entries mid) [
        | none ↦ result
        | some e ↦ elim (leb e.offset target) [
          | true ↦ lookup_loop fuel entries target (mid + 1) hi (some e)
          | false ↦ lookup_loop fuel entries target lo mid result
        ]
      ]
    ]

-- `none` is ErrOffsetNotFound.
unfoldable pub lookup : Index → ℕ → Option ℕ
lookup idx target =
    if length idx.entries == 0
    then none
    else elim (lookup_loop (length idx.entries) idx.entries target 0 (length idx.entries) none) [
      | none ↦ none
      | some e ↦ some e.position
    ]

unfoldable pub len : Index → ℕ
len idx = length idx.entries

-- `Flush`: the buffer, then fsync.
unfoldable pub flush_index : Os → Index → Bool × Index × Os
flush_index os idx =
    let (done, bw', os') = flush os idx.bw in
    let (synced, os'') = call os' bw' in
    if done
    then elim synced [
      | none ↦ (true, record idx { bw = bw' }, os'')
      | some _ ↦ (false, record idx { bw = bw' }, os'')
    ]
    else (false, record idx { bw = bw' }, os')

-- `Close`: the buffer, then the file, which is closed whatever its close returns.
unfoldable pub close_index : Os → Index → Bool × Index × Os
close_index os idx =
    let (done, bw', os') = flush os idx.bw in
    let (shut, os'') = call os' bw' in
    let closed = record idx { bw = record bw' { is_open = false } } in
    if done
    then elim shut [ none ↦ (true, closed, os'') | some _ ↦ (false, closed, os'') ]
    else (false, record idx { bw = bw' }, os')
