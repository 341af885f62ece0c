-- ===== src/Storage/Error.antt =====
-- The errors of internal/storage. `io` is any error of a system call, whose text is left out.
pub data StorageError : Type 0 where
  segment_full invalid_offset invalid_size io : StorageError
