-- ===== src/Server.antt =====
-- internal/server/handler.go.
pub mod OffsetRecord
pub mod OffsetCache
pub mod Hydrate
pub mod Exchange
pub mod Run
pub mod Patch
pub mod Fetch
pub mod Produce
pub mod Offsets
pub mod Coordinator
pub mod Metadata
pub mod Dispatch
