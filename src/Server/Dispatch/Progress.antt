-- ===== src/Server/Dispatch/Progress.antt =====
-- No handler of internal/server/handler.go puts bytes back into the stream.
use kage.Prelude.{ℕ, ◌≤◌, Bool, true, false, arith, length, if◌then◌else◌}
use kage.Outcome.{Outcome, ok, err, panic}
use kage.Protocol.Error.{ProtocolError, unsupported_api_key}
use kage.Protocol.Decoder.{Stream, Parser}
use kage.Protocol.Decoder.Shrinks.{Left, Shrinks}
use kage.Protocol.Messages.Header.{RequestHeader}
use kage.Protocol.Messages.Metadata.{parse_metadata_request}
use kage.Protocol.Messages.Produce.{parse_produce_request}
use kage.Protocol.Messages.Fetch.{parse_fetch_request}
use kage.Protocol.Messages.OffsetCommit.{parse_offset_commit_request}
use kage.Protocol.Messages.OffsetFetch.{parse_offset_fetch_request}
use kage.Protocol.Messages.ListOffsets.{parse_list_offsets_request}
use kage.Protocol.Messages.Group.{
  parse_find_coordinator_request, parse_join_group_request, parse_heartbeat_request,
  parse_leave_group_request, parse_sync_group_request,
}
use kage.Protocol.Messages.Shrinks.{
  parse_metadata_request-Shrinks, parse_produce_request-Shrinks, parse_fetch_request-Shrinks,
  parse_offset_commit_request-Shrinks, parse_offset_fetch_request-Shrinks,
  parse_list_offsets_request-Shrinks, parse_find_coordinator_request-Shrinks,
  parse_join_group_request-Shrinks, parse_heartbeat_request-Shrinks,
  parse_leave_group_request-Shrinks, parse_sync_group_request-Shrinks,
}
use kage.Server.Run.{each, Handler, Run, ◌>>=◌, parsed, Reply}
use kage.Server.Coordinator.{
  handle_api_versions, handle_find_coordinator, handle_join_group, handle_heartbeat,
  handle_leave_group, handle_sync_group,
}
use kage.Server.Fetch.{fetch_topics, handle_fetch}
use kage.Server.Metadata.{ensure_topic, handle_metadata}
use kage.Server.Offsets.{
  list_topic, commit_topic, fetch_offsets_topic, handle_list_offsets, handle_offset_commit,
  handle_offset_fetch,
}
use kage.Server.Produce.{produce_topic, handle_produce}
use kage.Server.Dispatch.{dispatch}
use kage.Storage.Bufio.{Os}

-- What is left after a reply is at most `n` bytes.
abbrev pub Rest : ℕ → Outcome ProtocolError (Reply × Handler × Os) → Type 0
Rest n (ok ((bytes, s), h, os)) = length s ≤ n
Rest n (err e) = Unit {0}
Rest n panic = Unit {0}

pub record Leaves (n : ℕ) (m : Run Reply) : Type 0 where
  pub rest : (os : Os) (h : Handler) → Rest n (m os h)

here-Leaves :
    {n : ℕ} {r : Handler → Reply}
    → ((h : Handler) → length ((r h).1) ≤ n)
    → Leaves n (λ os h. ok (r h, h, os))
here-Leaves k = record { rest = λ os h. k h }

unsupported-Leaves : (n key : ℕ) → Leaves n (λ os h. err (unsupported_api_key key))
unsupported-Leaves n key = record { rest = λ os h. tt }

bound :
    {A : Type 0} (n : ℕ) (o : Outcome ProtocolError (A × Handler × Os)) (f : A → Run Reply)
    → ((a : A) → Leaves n (f a))
    → Rest n (elim o [ ok (a, h', os') ↦ f a os' h' | err e ↦ err e | panic ↦ panic ])
bound n (ok (a, h', os')) f k = (k a).rest os' h'
bound n (err e) f k = tt
bound n panic f k = tt

>>=-Leaves :
    {A : Type 0} {n : ℕ} {f : A → Run Reply} (m : Run A)
    → ((a : A) → Leaves n (f a))
    → Leaves n (m >>= f)
>>=-Leaves {n = n} {f = f} m k = record { rest = λ os h. bound n (m os h) f k }

bound_parsed :
    {A : Type 0} (s : Stream) (o : Outcome ProtocolError (A × Stream)) (f : A × Stream → Run Reply)
    → Left s o
    → ((r : A × Stream) → length (r.1) ≤ length s → Leaves (length s) (f r))
    → Leaves (length s) (parsed o >>= f)
bound_parsed s (ok r) f l k = record { rest = (k r l).rest }
bound_parsed s (err e) f l k = record { rest = λ os h. tt }
bound_parsed s panic f l k = record { rest = λ os h. tt }

parsed-Leaves :
    {A : Type 0} {f : A × Stream → Run Reply} (s : Stream) (p : Parser A)
    → Shrinks p
    → ((r : A × Stream) → length (r.1) ≤ length s → Leaves (length s) (f r))
    → Leaves (length s) (parsed (p s) >>= f)
parsed-Leaves {f = f} s p h k = bound_parsed s (p s) f (h.left s) k

if-Leaves :
    (n : ℕ) (b : Bool) (m m' : Run Reply)
    → Leaves n m
    → Leaves n m'
    → Leaves n (if b then m else m')
if-Leaves n true m m' h h' = h
if-Leaves n false m m' h h' = h'

handle_produce-Leaves :
    (header : RequestHeader) (s : Stream) → Leaves (length s) (handle_produce header s)
unfolding handle_produce
handle_produce-Leaves header s =
    parsed-Leaves s (parse_produce_request header) (parse_produce_request-Shrinks header)
      (λ r k. >>=-Leaves (each produce_topic (r.0.topics)) (λ a. here-Leaves (λ h. k)))

handle_fetch-Leaves :
    (header : RequestHeader) (s : Stream) → Leaves (length s) (handle_fetch header s)
unfolding handle_fetch
handle_fetch-Leaves header s =
    parsed-Leaves s (parse_fetch_request header) (parse_fetch_request-Shrinks header)
      (λ r k. >>=-Leaves (fetch_topics (r.0.max_bytes) (r.0.topics)) (λ a. here-Leaves (λ h. k)))

handle_list_offsets-Leaves :
    (header : RequestHeader) (s : Stream) → Leaves (length s) (handle_list_offsets header s)
unfolding handle_list_offsets
handle_list_offsets-Leaves header s =
    parsed-Leaves s (parse_list_offsets_request header) (parse_list_offsets_request-Shrinks header)
      (λ r k. >>=-Leaves (each list_topic (r.0.topics)) (λ a. here-Leaves (λ h. k)))

handle_metadata-Leaves :
    (header : RequestHeader) (s : Stream) → Leaves (length s) (handle_metadata header s)
unfolding handle_metadata
handle_metadata-Leaves header s =
    parsed-Leaves s (parse_metadata_request header) (parse_metadata_request-Shrinks header)
      (λ r k. >>=-Leaves (each ensure_topic (r.0.topics)) (λ a. here-Leaves (λ h. k)))

handle_offset_commit-Leaves :
    (header : RequestHeader) (s : Stream) → Leaves (length s) (handle_offset_commit header s)
unfolding handle_offset_commit
handle_offset_commit-Leaves header s =
    parsed-Leaves s parse_offset_commit_request parse_offset_commit_request-Shrinks (λ r k.
      >>=-Leaves (each (commit_topic (r.0.group_id)) (r.0.topics)) (λ a. here-Leaves (λ h. k)))

handle_offset_fetch-Leaves :
    (header : RequestHeader) (s : Stream) → Leaves (length s) (handle_offset_fetch header s)
unfolding handle_offset_fetch
handle_offset_fetch-Leaves header s =
    parsed-Leaves s parse_offset_fetch_request parse_offset_fetch_request-Shrinks (λ r k.
      >>=-Leaves (each (fetch_offsets_topic (r.0.group_id)) (r.0.topics))
        (λ a. here-Leaves (λ h. k)))

handle_find_coordinator-Leaves :
    (header : RequestHeader) (s : Stream) → Leaves (length s) (handle_find_coordinator header s)
unfolding handle_find_coordinator
handle_find_coordinator-Leaves header s =
    parsed-Leaves s parse_find_coordinator_request parse_find_coordinator_request-Shrinks
      (λ r k. here-Leaves (λ h. k))

handle_join_group-Leaves :
    (header : RequestHeader) (s : Stream) → Leaves (length s) (handle_join_group header s)
unfolding handle_join_group
handle_join_group-Leaves header s =
    parsed-Leaves s parse_join_group_request parse_join_group_request-Shrinks
      (λ r k. here-Leaves (λ h. k))

handle_heartbeat-Leaves :
    (header : RequestHeader) (s : Stream) → Leaves (length s) (handle_heartbeat header s)
unfolding handle_heartbeat
handle_heartbeat-Leaves header s =
    parsed-Leaves s parse_heartbeat_request parse_heartbeat_request-Shrinks
      (λ r k. here-Leaves (λ h. k))

handle_leave_group-Leaves :
    (header : RequestHeader) (s : Stream) → Leaves (length s) (handle_leave_group header s)
unfolding handle_leave_group
handle_leave_group-Leaves header s =
    parsed-Leaves s parse_leave_group_request parse_leave_group_request-Shrinks
      (λ r k. here-Leaves (λ h. k))

handle_sync_group-Leaves :
    (header : RequestHeader) (s : Stream) → Leaves (length s) (handle_sync_group header s)
unfolding handle_sync_group
handle_sync_group-Leaves header s =
    parsed-Leaves s parse_sync_group_request parse_sync_group_request-Shrinks
      (λ r k. here-Leaves (λ h. k))

handle_api_versions-Leaves :
    (header : RequestHeader) (s : Stream) → Leaves (length s) (handle_api_versions header s)
unfolding handle_api_versions
handle_api_versions-Leaves header s = here-Leaves (λ h. omega arith)

ruleset handlers = (
  if-Leaves, unsupported-Leaves, handle_produce-Leaves, handle_fetch-Leaves,
  handle_list_offsets-Leaves, handle_metadata-Leaves, handle_offset_commit-Leaves,
  handle_offset_fetch-Leaves, handle_find_coordinator-Leaves, handle_join_group-Leaves,
  handle_heartbeat-Leaves, handle_leave_group-Leaves, handle_sync_group-Leaves,
  handle_api_versions-Leaves,
)

pub dispatch-Leaves : (header : RequestHeader) (s : Stream) → Leaves (length s) (dispatch header s)
unfolding dispatch
dispatch-Leaves header s = search (handlers) depth 20
