-- ===== src/Protocol/Messages.antt =====
-- internal/protocol/messages.go: the requests with their parsers, and the responses with their
-- encoders, one module to each API.
pub mod Constants
pub mod Header
pub mod Produce
pub mod Fetch
pub mod OffsetCommit
pub mod OffsetFetch
pub mod ListOffsets
pub mod Metadata
pub mod MetadataResponse
pub mod Panics
pub mod Correlation
pub mod Shrinks
pub mod Group
pub mod ApiVersions
