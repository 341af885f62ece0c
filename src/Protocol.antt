-- ===== src/Protocol.antt =====
-- internal/protocol: the encoder, the decoder, the record batch check and the messages.
pub mod Error
pub mod Encoder
pub mod Decoder
pub mod Arrays
pub mod RecordBatch
pub mod Messages
