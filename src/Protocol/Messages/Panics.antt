-- ===== src/Protocol/Messages/Panics.antt =====
-- Requests that make a parser panic: `make` with a capacity below 0.
use kage.Prelude.{ℕ, ◌<◌, ◌≤◌, ◌≡◌, ◌++◌, arith, Bytes, length, IsU32}
use kage.Outcome.{panic}
use kage.Binary.{put_uint32}
use kage.Protocol.Encoder.Layout.{wire_string}
use kage.Protocol.Decoder.{Parser, ◌>>=◌, Stream}
use kage.Protocol.Decoder.RoundTrip.{reads}
use kage.Protocol.Arrays.{read_array}
use kage.Protocol.Messages.Header.{RequestHeader}
use kage.Protocol.Messages.Metadata.{parse_metadata_request}
use kage.Protocol.Messages.OffsetFetch.{parse_offset_fetch_request}

read_array-negative :
    {A : Type 0} (count : ℕ) (item : Parser A) (s : Stream)
    → 0x8000_0000 ≤ count
    → read_array count item s ≡ panic
unfolding read_array
read_array-negative count item s h = ground arith

-- A Metadata request whose topic count is negative, such as -1, which asks for all topics, makes
-- the parser panic, whatever its header is and whatever follows.
pub parse_metadata_request_panics :
    (header : RequestHeader) (count : ℕ) (rest : Bytes)
    → IsU32 count
    → 0x8000_0000 ≤ count
    → parse_metadata_request header (put_uint32 count ++ rest) ≡ panic
unfolding parse_metadata_request
parse_metadata_request_panics header count rest h n = simp (reads, ◌>>=◌, h, read_array-negative, n)

-- An OffsetFetch request for a group of fewer than 32768 bytes whose topic count is negative makes
-- the parser panic, whatever follows.
pub parse_offset_fetch_request_panics :
    (group_id : Bytes) (count : ℕ) (rest : Bytes)
    → length group_id < 0x8000
    → IsU32 count
    → 0x8000_0000 ≤ count
    → parse_offset_fetch_request (wire_string group_id ++ (put_uint32 count ++ rest)) ≡ panic
unfolding parse_offset_fetch_request
parse_offset_fetch_request_panics group_id count rest g h n =
    simp (reads, ◌>>=◌, g, h, read_array-negative, n)
