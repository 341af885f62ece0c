-- ===== src/Tests/CleanerTests.antt =====
-- Runs of the cleaner of internal/storage on concrete data.
use kage.Prelude.{arith, ◌-◌, ◌≡◌, refl, sym, inl, some, none, [], ◌∷◌, Bytes, bytes_eq}
use kage.Outcome.{ok}
use kage.Decimal.{digits, digits_of, parse_digits, parse_from, format_int32}
use kage.Storage.Cleaner.{
  File, files_at, log_name, index_name, pad20, has_suffix, trim_suffix, index_of,
  clean_old_segments, World, settle,
}
use kage.Storage.Cleaner.Kept.{clean_old_segments-kept}
use kage.Storage.Cleaner.Removed.{survivors, count_expired, clean_old_segments-removed}
use kage.Storage.BrokerStore.{
  BrokerStore, find_store, topics, topics_of, parse_dir_name, match_dir, parse_match, in_range,
  partition_key,
}
use kage.Storage.Cleaner.Sweep.{Moment, tick}
use kage.Storage.Cleaner.Sweep.Spared.{IsActive, look_tick, tick-kept}
use kage.Storage.Segment.Success.{fresh}
use kage.Storage.Store.{PartitionStore}

abbrev file : Bytes → Bytes → File
file name content = record { name = name; modified = 50; content = content }

-- A closed segment and the active one, both older than the retention, and another file.
abbrev old_log : File
old_log = file (log_name 0) (1 ∷ [])

abbrev old_index : File
old_index = file (index_name 0) (2 ∷ [])

abbrev active_log : File
active_log = file (log_name 7) (3 ∷ [])

abbrev notes : File
notes = file (b'n' ∷ []) (4 ∷ [])

abbrev store : PartitionStore
store = record {
  dir_name = b't' ∷ b'-' ∷ b'3' ∷ [];
  dir = λ _. record { log = []; index = [] };
  cfg = record { max_size = 100; retention = 10 };
  active = fresh 7 100;
  next_base = 7;
}

-- A write to the active log comes in before the first log is looked at; the removal of the index
-- then fails.
abbrev world : World
world =
    record { writes = []; outcome = none; later = 0 }
    ∷ record { writes = file (log_name 7) (3 ∷ 4 ∷ []) ∷ []; outcome = none; later = 0 }
    ∷ record { writes = []; outcome = none; later = 0 }
    ∷ record { writes = []; outcome = some 5; later = 0 }
    ∷ []

clean_old_segments-kept_example :
    let files = old_log ∷ old_index ∷ active_log ∷ notes ∷ [] in
    let r = clean_old_segments world 100 10 store files in
    files_at (settle r.2 r.1) 7 ≡ files_at (settle world files) 7
clean_old_segments-kept_example =
    clean_old_segments-kept world 100 10 store (old_log ∷ old_index ∷ active_log ∷ notes ∷ []) 7
      (inl refl)

clean_old_segments-removed_example :
    let files = old_log ∷ old_index ∷ active_log ∷ notes ∷ [] in
    clean_old_segments [] 100 10 store files ≡ (
      ok (count_expired (100 - 10) (log_name 7) files),
      survivors (100 - 10) (log_name 7) files files,
      [],
    )
clean_old_segments-removed_example =
    clean_old_segments-removed 100 10 store (old_log ∷ old_index ∷ active_log ∷ notes ∷ [])

-- One segment goes, with its index.
one_goes :
    survivors
      (100 - 10)
      (log_name 7)
      (old_log ∷ old_index ∷ active_log ∷ notes ∷ [])
      (old_log ∷ old_index ∷ active_log ∷ notes ∷ [])
    ≡ active_log ∷ notes ∷ []
unfolding pad20 digits digits_of has_suffix trim_suffix index_of bytes_eq
one_goes = refl

-- The store of "t-3" works in a directory that was found as "t-03".
abbrev odd_name : Bytes
odd_name = b't' ∷ b'-' ∷ b'0' ∷ b'3' ∷ []

abbrev odd_store : PartitionStore
odd_store = record store { dir_name = odd_name }

abbrev broker : BrokerStore
broker = record {
  stores = (b't' ∷ b'-' ∷ b'3' ∷ [], odd_store) ∷ [];
  disk = λ _ _. record { log = []; index = [] };
  cfg = record { max_size = 100; retention = 10 };
}

abbrev moment : Moment
moment = record {
  writes = λ _. file (log_name 7) (3 ∷ 3 ∷ []) ∷ [];
  stores = broker.stores;
  now = 100;
  world = world;
}

-- The round looks for the partition 3 of "t".
moment-IsActive : IsActive odd_name 7 (moment ∷ []) (topics broker)
unfolding topics topics_of parse_dir_name match_dir parse_match in_range partition_key find_store
    parse_digits parse_from format_int32 digits digits_of bytes_eq
moment-IsActive = ((λ ps h e. let same : odd_store ≡ ps = ground arith in rw (sym same) refl), tt)

tick-kept_example :
    files_at (tick (moment ∷ []) broker (λ _. old_log ∷ old_index ∷ []) odd_name) 7
    ≡ files_at (look_tick (moment ∷ []) broker (λ _. old_log ∷ old_index ∷ []) odd_name) 7
tick-kept_example =
    tick-kept (moment ∷ []) broker (λ _. old_log ∷ old_index ∷ []) odd_name 7 moment-IsActive
