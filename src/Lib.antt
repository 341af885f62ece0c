-- ===== src/Lib.antt =====
-- A model of kage, a single-node broker for the Kafka protocol, and what has been proved of it.
--
-- The program's parts. A connection's handler (internal/server/handler.go) reads a request header
-- and a request body with a decoder, calls the broker store (internal/storage/broker_store.go) for
-- the partition stores concerned, and writes a response with an encoder (internal/protocol). A
-- partition store (internal/storage/store.go) appends to its active segment and rolls over to a new
-- one when that is full; a segment (internal/storage/segment.go) is a file of length-prefixed
-- records with a sparse index (internal/storage/index.go). Committed consumer offsets are records
-- of a partition of their own. The process (cmd/kaged/main.go) loads its configuration
-- (internal/config/config.go), opens the broker store and starts a handler for each connection that
-- gets a slot of the worker pool; on a signal it closes the listener and waits for the handlers
-- that run. A cleaner removes old segments in the background.
--
-- Which file models which part:
--   Binary, Slice, Crc32   Go's encoding/binary, slice expressions with their panics, hash/crc32
--   Outcome                what a Go function with an error result does: return, fail, panic
--   Protocol.Encoder       internal/protocol/encoder.go, a method for each method
--   Protocol.Decoder       internal/protocol/decoder.go, over the bytes that the peer still sends
--   Protocol.RecordBatch   internal/protocol/record_batch.go, `ValidateRecordBatch`
--   Protocol.Arrays        the counted loops of internal/protocol/messages.go
--   Protocol.Messages      internal/protocol/messages.go, a module for each kind of message; each
--                          parser is cut into the body of its loops
--   Decimal                Go's decimal numbers, `%d` and strconv.ParseInt
--   Config                 internal/config/config.go: the fields; Config.Yaml the lines of the file,
--                          with strings.TrimSpace and bufio.ScanLines; Config.Load the layers
--   Storage.Bufio          Go's bufio.Writer over a file
--   Storage.Index          internal/storage/index.go
--   Storage.Segment        internal/storage/segment.go
--   Storage.Store          internal/storage/store.go
--   Storage.BrokerStore    internal/storage/broker_store.go, the map as an association list
--   Server.Run             the state of a handler, and what a handler is
--   Server.Dispatch        internal/server/handler.go, `dispatch` and the loop of `Handle`
--   Server.Produce, Server.Fetch, Server.Offsets, Server.Metadata, Server.Coordinator
--                          internal/server/handler.go, the handlers, cut into the bodies of their
--                          loops and into what follows each call that can fail
--   Server.Patch           internal/server/handler.go, the base offsets that `handleFetch` rewrites
--   Server.OffsetRecord    internal/server/handler.go, the records of __consumer_offsets
--   Server.OffsetCache     internal/server/handler.go, the commit of one offset, and the loop of
--                          `LoadOffsetsCache` over the bytes of the offsets log
--   Server.Hydrate         internal/server/handler.go, `LoadOffsetsCache` as a whole
--   Storage.Cleaner        internal/storage/store.go, `CleanOldSegments`, over the files of a directory
--                          with their names and times; Storage.Cleaner.Sweep one tick of
--                          `runLogCleaner` of internal/storage/broker_store.go
--   Broker                 cmd/kaged/main.go, the accept loop, its goroutines and the shutdown as
--                          events
--   Broker.Start           cmd/kaged/main.go, the start up to the accept loop, with `Addr` of
--                          internal/config/config.go and `MetricsAddr` of internal/metrics/metrics.go
--   Tests                  runs of all of these on concrete data
--
-- Conventions. Strings and byte slices are lists of bytes as native numbers. An integer of w bits
-- is its bit pattern, a number below 2 ^ w; sums keep their wrap-around, and signed comparisons
-- read the pattern as two's complement (Prelude.Words). An operation takes the state and returns
-- its result with the new state; the mutexes make each method one step, so a run is a sequence of
-- calls. A system call succeeds or fails as a list of outcomes says, which every operation of
-- Storage takes and returns; a failed write may have written any part, and a call on a closed file
-- fails. The reads of what a store has served, in `handleFetch` and `LoadOffsetsCache`, are such
-- calls, too. The text that fmt.Errorf puts round an error is left out. The cleaner holds no lock
-- while it works: each of its calls comes with what other goroutines have written to the directory
-- by then (`Turn`), and each round of a tick with the map and the directories as it finds them
-- (`Moment`); what is written to another directory during a round is counted with the next round,
-- since the round does not look there. No other part of the process removes files. A clock and the times of files count nanoseconds. A panic is an
-- outcome of its own: nothing in the program recovers from one.
--
-- Bounds and fuel. `lookup_loop` runs on fuel, as many rounds as there are entries, `load_loop` on
-- one round more than there are bytes, `patch_loop` on as many rounds as there are bytes, and
-- `handle_loop` on one round more than the stream has bytes; the proofs against a scan, a replay, a
-- list of batches and the loop itself show that to be enough. `digits_of` has a round for each unit
-- of the number. Every other loop is structural. `IsLog` asks for a maximum size below 2 ^ 62, so
-- that the int64 sums of `Append` do not wrap; the default is 2 ^ 30. The runs of the broker's
-- events need no fuel; `work` bounds those of a shutdown.
--
-- Parameters. `time.ParseDuration` is an argument of the configuration, of which nothing is
-- assumed. The file, the variables and the order in which Go walks through their map are arguments,
-- too, and so is KAGE_ADVERTISED_HOST, a field of the handler. Where a map's order shows in a
-- response, that of Metadata, the model takes the order in which the entries were made.
--
-- Not modelled: the loss of memory (a large positive count makes `make` allocate, which is outside
-- the model), the capacity of a slice beyond its length, durability after a power failure, failing
-- or stalled connections, logging, and the collectors of internal/metrics with their HTTP server.
-- Of internal/storage a topic whose name holds a slash, and the timer of the cleaner, whose ticks
-- are calls; the name of a store's directory is a field of the store, since one that was found when
-- the broker started need not be the store's key. Of cmd/kaged/main.go the deferred `Close` of the store, which is an operation of its
-- own.
pub mod Prelude
pub mod Outcome
pub mod Binary
pub mod Slice
pub mod Crc32
pub mod Decimal
pub mod Config
pub mod Protocol
pub mod Storage
pub mod Server
pub mod Broker
pub mod Tests
