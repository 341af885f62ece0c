-- ===== src/Server/Dispatch/Termination.antt =====
-- The loop of `Handle` in internal/server/handler.go comes to an end.
use kage.Prelude.{ℕ, zero, suc, ◌≤◌, ◌<◌, ◌≢◌, arith, Bytes, length}
use kage.Outcome.{Outcome, ok, err, panic}
use kage.Protocol.Error.{ProtocolError}
use kage.Protocol.Decoder.{Stream}
use kage.Protocol.Decoder.Shrinks.{Shorter}
use kage.Protocol.Messages.Header.{RequestHeader, parse_request_header}
use kage.Protocol.Messages.Shrinks.{parse_request_header-Shorter}
use kage.Server.Run.{Handler, Reply}
use kage.Server.Dispatch.{
  dispatch, out_of_fuel, Served, written, answered, with_header, handle_loop, handle,
}
use kage.Server.Dispatch.Progress.{Rest, dispatch-Leaves}
use kage.Storage.Bufio.{Os}

-- A continuation of the loop.
abbrev Next : Type 0
Next = Stream → Os → Handler → Served

written-ne : (bytes : Bytes) (r : Served) → r ≢ err out_of_fuel → written bytes r ≢ err out_of_fuel
unfolding written
written-ne bytes (ok r) k = λ e. cc
written-ne bytes (err out_of_fuel) k = k
written-ne bytes panic k = λ e. cc

answered-ne :
    (n : ℕ) (f : Next) (os : Os) (h : Handler) (o : Outcome ProtocolError (Reply × Handler × Os))
    → ((s : Stream) (os' : Os) (h' : Handler) → length s ≤ n → f s os' h' ≢ err out_of_fuel)
    → Rest n o
    → answered f os h o ≢ err out_of_fuel
unfolding answered
answered-ne n f os h (ok ((bytes, s), h', os')) k r = written-ne bytes (f s os' h') (k s os' h' r)
answered-ne n f os h (err x) k r = λ e. cc
answered-ne n f os h panic k r = λ e. cc

with_header-ne :
    (n : ℕ) (f : Next) (os : Os) (h : Handler) (s : Stream)
    (o : Outcome ProtocolError (RequestHeader × Stream))
    → length s < suc n
    → ((t : Stream) (os' : Os) (h' : Handler) → length t < n → f t os' h' ≢ err out_of_fuel)
    → Shorter s o
    → with_header f os h o ≢ err out_of_fuel
unfolding with_header
with_header-ne n f os h s (ok (header, s')) b k r =
    answered-ne (length s') f os h (dispatch header s' os h) (λ t o i q. k t o i (omega arith))
      ((dispatch-Leaves header s').rest os h)
with_header-ne n f os h s (err x) b k r = λ e. cc
with_header-ne n f os h s panic b k r = λ e. cc

handle_loop-ne :
    (fuel : ℕ) (s : Stream) (os : Os) (h : Handler)
    → length s < fuel
    → handle_loop fuel s os h ≢ err out_of_fuel
unfolding handle_loop
handle_loop-ne zero s os h p = absurd (omega arith)
handle_loop-ne (suc n) s os h p =
    with_header-ne n (handle_loop n) os h s (parse_request_header s) p (handle_loop-ne n)
      (parse_request_header-Shorter s)

-- Handle comes to an end on every finite stream, whatever the requests are and whatever the system
-- calls do: the loop never needs more rounds than it is given.
pub handle_terminates : (s : Stream) (os : Os) (h : Handler) → handle s os h ≢ err out_of_fuel
unfolding handle
handle_terminates s os h = handle_loop-ne (suc (length s)) s os h (omega arith)
