-- ===== src/Protocol/Error.antt =====
-- The errors of the decoder and of the parsers in internal/protocol/messages.go. The text that
-- `fmt.Errorf` wraps round an error says where it arose and is left out.
-- `unsupported_api_key` is the error of `dispatch` in internal/server/handler.go.
use kage.Prelude.{ℕ}

pub data ProtocolError : Type 0 where
  eof unexpected_eof : ProtocolError
  invalid_topic_count invalid_partition_count negative_batch_size : ℕ → ProtocolError
  unsupported_api_key : ℕ → ProtocolError
