-- ===== src/Common/Action/Laws.antt =====
-- How a sequence of calls ends, by how its first call ends.
use mathlib.Core.Path.{◌≡◌, ap}
use mathlib.Core.Option.{Option, some}
use inertia_trader.Common.Action.{Action, ok, throws, fault, ◌>>=◌, or_throw, or_fault, catching}

module _ {S : Type 0} where
  pub >>=-ok :
      {A B : Type 0} (m : Action S A) (f : A → Action S B) (s s' : S) (a : A)
      → m s ≡ (ok a, s')
      → (m >>= f) s ≡ f a s'
  >>=-ok m f s s' a e = rw (e, ◌>>=◌) (ap (λ p. f a p.1) e)

  pub >>=-fault :
      {A B : Type 0} (m : Action S A) (f : A → Action S B) (s : S)
      → (m s).0 ≡ fault
      → ((m >>= f) s).0 ≡ fault
  >>=-fault m f s e = rw (e, ◌>>=◌)

  pub >>=-throws :
      {A B : Type 0} (m : Action S A) (f : A → Action S B) (s : S)
      → (m s).0 ≡ throws
      → ((m >>= f) s).0 ≡ throws
  >>=-throws m f s e = rw (e, ◌>>=◌)

  -- Two calls that end alike go on alike.
  pub >>=-same :
      {A B : Type 0} (m m' : Action S A) (f : A → Action S B) (s : S)
      → m s ≡ m' s
      → (m >>= f) s ≡ (m' >>= f) s
  >>=-same m m' f s e =
      ap (λ p. elim p.0 [ ok a ↦ f a p.1 | throws ↦ (throws, p.1) | fault ↦ (fault, p.1) ]) e

  pub or_fault-some :
      {A : Type 0} (o : Option A) (a : A) (s : S) → o ≡ some a → or_fault o s ≡ (ok a, s)
  or_fault-some o a s e = rw e

  -- A read that succeeds.
  pub or_throw->>= :
      {A B : Type 0} {o : Option A} {a : A} (f : A → Action S B) (s : S)
      → o ≡ some a
      → (or_throw o >>= f) s ≡ f a s
  or_throw->>= f s e = rw e

  pub or_fault->>= :
      {A B : Type 0} {o : Option A} {a : A} (f : A → Action S B) (s : S)
      → o ≡ some a
      → (or_fault o >>= f) s ≡ f a s
  or_fault->>= f s e = rw e

  pub catching-fault :
      (m : Action S (Unit {0})) (s : S) → (m s).0 ≡ fault → (catching m s).0 ≡ fault
  catching-fault m s e = rw (e, catching)

  pub catching-ok :
      (m : Action S (Unit {0})) (s s' : S) → m s ≡ (ok tt, s') → catching m s ≡ (ok tt, s')
  catching-ok m s s' e = rw (e, catching) (ap (λ p. (ok tt, p.1)) e)

  pub catching-end :
      (m : Action S (Unit {0})) (s s' : S) → m s ≡ (fault, s') → catching m s ≡ (fault, s')
  catching-end m s s' e = rw (e, catching) (ap (λ p. (fault, p.1)) e)
