-- ===== src/Server/Run/Always.antt =====
-- What a run returns, if it returns, whatever the state and the system calls are.
use kage.Outcome.{Outcome, ok, err, panic}
use kage.Protocol.Error.{ProtocolError}
use kage.Server.Run.{Handler, Run, ◌>>=◌}
use kage.Storage.Bufio.{Os}

abbrev pub Returns : {A : Type 0} → (A → Type 0) → Outcome ProtocolError (A × Handler × Os) → Type 0
Returns P (ok (a, _, _)) = P a
Returns P (err _) = Unit {0}
Returns P panic = Unit {0}

abbrev pub Always : {A : Type 0} → (A → Type 0) → Run A → Type 0
Always P m = (os : Os) (h : Handler) → Returns P (m os h)

-- A predicate that says nothing.
abbrev pub Any : {A : Type 0} → A → Type 0
Any _ = Unit {0}

module _ {A B : Type 0} (P : A → Type 0) (Q : B → Type 0) where
  bind-Returns :
      (o : Outcome ProtocolError (A × Handler × Os)) (f : A → Run B)
      → Returns P o
      → ((a : A) → P a → Always Q (f a))
      → Returns Q (elim o [ ok (a, h', os') ↦ f a os' h' | err e ↦ err e | panic ↦ panic ])
  bind-Returns (ok (a, h', os')) f x g = g a x os' h'
  bind-Returns (err _) f x g = tt
  bind-Returns panic f x g = tt

  pub >>=-Always :
      (m : Run A) (f : A → Run B)
      → Always P m
      → ((a : A) → P a → Always Q (f a))
      → Always Q (m >>= f)
  >>=-Always m f x g os h = bind-Returns (m os h) f (x os h) g

Returns-Any : {A : Type 0} (o : Outcome ProtocolError (A × Handler × Os)) → Returns Any o
Returns-Any (ok _) = tt
Returns-Any (err _) = tt
Returns-Any panic = tt

Always-Any : {A : Type 0} (m : Run A) → Always Any m
Always-Any m os h = Returns-Any (m os h)

-- A first step of which nothing is asked.
pub then-Always :
    {A B : Type 0} (Q : B → Type 0) (m : Run A) (f : A → Run B)
    → ((a : A) → Always Q (f a))
    → Always Q (m >>= f)
then-Always Q m f g = >>=-Always Any Q m f (Always-Any m) (λ a _. g a)
