-- ===== src/Server/Dispatch.antt =====
-- `dispatch` and `Handle` of internal/server/handler.go: the loop over one connection.
pub mod Progress
pub mod Termination
pub mod Framing
pub mod Frames
use kage.Prelude.{ℕ, zero, suc, ◌==◌, [], ◌++◌, Bytes, length, if◌then◌else◌}
use kage.Outcome.{Outcome, ok, err, panic}
use kage.Protocol.Error.{ProtocolError, unsupported_api_key}
use kage.Protocol.Decoder.{Stream}
use kage.Protocol.Messages.Constants.{
  api_key_produce, api_key_fetch, api_key_list_offsets, api_key_metadata, api_key_offset_commit,
  api_key_offset_fetch, api_key_find_coordinator, api_key_join_group, api_key_heartbeat,
  api_key_leave_group, api_key_sync_group, api_key_api_versions,
}
use kage.Protocol.Messages.Header.{RequestHeader, parse_request_header}
use kage.Server.Coordinator.{
  handle_api_versions, handle_find_coordinator, handle_join_group, handle_heartbeat,
  handle_leave_group, handle_sync_group,
}
use kage.Server.Fetch.{handle_fetch}
use kage.Server.Metadata.{handle_metadata}
use kage.Server.Offsets.{handle_list_offsets, handle_offset_commit, handle_offset_fetch}
use kage.Server.Produce.{handle_produce}
use kage.Server.Run.{Handler, Run, Reply}
use kage.Storage.Bufio.{Os}

unfoldable pub dispatch : RequestHeader → Stream → Run Reply
dispatch header s =
    let key = header.api_key in
    if key == api_key_produce
    then handle_produce header s
    else if key == api_key_fetch
    then handle_fetch header s
    else if key == api_key_list_offsets
    then handle_list_offsets header s
    else if key == api_key_metadata
    then handle_metadata header s
    else if key == api_key_offset_commit
    then handle_offset_commit header s
    else if key == api_key_offset_fetch
    then handle_offset_fetch header s
    else if key == api_key_find_coordinator
    then handle_find_coordinator header s
    else if key == api_key_join_group
    then handle_join_group header s
    else if key == api_key_heartbeat
    then handle_heartbeat header s
    else if key == api_key_leave_group
    then handle_leave_group header s
    else if key == api_key_sync_group
    then handle_sync_group header s
    else if key == api_key_api_versions
    then handle_api_versions header s
    else λ os h. err (unsupported_api_key key)

-- How the loop of `Handle` can fail in the model alone.
pub data Fault : Type 0 where
  out_of_fuel : Fault

-- What a connection ends in: the bytes written to it, and the state. An error of a request, which
-- is logged, ends it like the end of the stream.
abbrev pub Served : Type 0
Served = Outcome Fault (Bytes × Handler × Os)

unfoldable pub written : Bytes → Served → Served
written bytes (ok (rest, h, os)) = ok (bytes ++ rest, h, os)
written bytes (err e) = err e
written bytes panic = panic

-- What follows one request.
unfoldable pub answered :
    (Stream → Os → Handler → Served)
    → Os
    → Handler
    → Outcome ProtocolError (Reply × Handler × Os)
    → Served
answered next os h (ok ((bytes, s), h', os')) = written bytes (next s os' h')
answered next os h (err _) = ok ([], h, os)
answered next os h panic = panic

unfoldable pub with_header :
    (Stream → Os → Handler → Served)
    → Os
    → Handler
    → Outcome ProtocolError (RequestHeader × Stream)
    → Served
with_header next os h (ok (header, s)) = answered next os h (dispatch header s os h)
with_header next os h (err _) = ok ([], h, os)
with_header next os h panic = panic

unfoldable pub handle_loop : ℕ → Stream → Os → Handler → Served
handle_loop zero s os h = err out_of_fuel
handle_loop (suc fuel) s os h =
    with_header (λ s' os' h'. handle_loop fuel s' os' h') os h (parse_request_header s)

-- Every request takes bytes from the stream, so a round more than there are bytes is enough.
unfoldable pub handle : Stream → Os → Handler → Served
handle s os h = handle_loop (suc (length s)) s os h
