-- ===== src/Storage.antt =====
-- internal/storage: the sparse index, the segment, and the partition store over a directory of
-- segments.
pub mod Bufio
pub mod Error
pub mod Index
pub mod Segment
pub mod Store
pub mod BrokerStore
pub mod Cleaner
