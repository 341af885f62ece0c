-- ===== src/Tests.antt =====
-- Runs of the model on concrete data, one module per part of the program.
mod StorageTests
mod ProtocolTests
mod MessageTests
mod CacheTests
mod ServerTests
mod ProcessTests
mod MetadataTests
mod CleanerTests
mod BrokerTests
mod ExchangeTests
