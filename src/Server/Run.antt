-- ===== src/Server/Run.antt =====
-- The state that the handlers of internal/server/handler.go share, and the form of a handler.
pub mod Always
use kage.Prelude.{List, [], ◌∷◌, Bytes}
use kage.Outcome.{Outcome, ok, err, panic}
use kage.Protocol.Error.{ProtocolError}
use kage.Protocol.Decoder.{Stream}
use kage.Server.OffsetCache.{OffsetCache}
use kage.Storage.Bufio.{Os}
use kage.Storage.BrokerStore.{BrokerStore}

-- `host` is KAGE_ADVERTISED_HOST or its default, 127.0.0.1. The logger is left out, and so are the
-- metrics, which nothing reads back.
pub record Handler : Type 0 where
  pub store : BrokerStore
  pub offset_cache : OffsetCache
  pub host : Bytes

-- A handler parses its request before it changes anything, so an error comes with no new state; a
-- panic ends the process.
abbrev pub Run : Type 0 → Type 0
Run A = Os → Handler → Outcome ProtocolError (A × Handler × Os)

infixl 5 ◌>>=◌
abbrev pub ◌>>=◌ : {A B : Type 0} → Run A → (A → Run B) → Run B
◌>>=◌ m f os h = elim (m os h) [ ok (a, h', os') ↦ f a os' h' | err e ↦ err e | panic ↦ panic ]

abbrev pub pure : {A : Type 0} → A → Run A
pure a os h = ok (a, h, os)

-- What a parser returned.
abbrev pub parsed : {A : Type 0} → Outcome ProtocolError A → Run A
parsed (ok a) os h = ok (a, h, os)
parsed (err e) os h = err e
parsed panic os h = panic

-- `for _, x := range xs { ys = append(ys, body) }`
unfoldable pub each : {A B : Type 0} → (A → Run B) → List A → Run (List B)
each body [] = pure []
each body (x ∷ xs) = do y ← body x; ys ← each body xs; pure (y ∷ ys)

-- The bytes that a handler writes to the connection, and what is left of the stream.
abbrev pub Reply : Type 0
Reply = Bytes × Stream
