-- ===== src/Common/Action.antt =====
-- C++ code with state. A call ends with a value, with a C++ exception that it throws, or in
-- undefined behaviour (`fault`: a null or dangling pointer, an index past the end, …). The state
-- comes back in every case, since what was written before an exception stays written.
pub mod Laws
pub mod Post
pub mod Triple
use mathlib.Core.Bool.{Bool, true, false}
use mathlib.Core.Option.{Option, none, some}
use mathlib.Core.Path.{◌≡◌}
use inertia_trader.Common.Tests.{if◌then◌else◌}

pub data Outcome {ℓ} (A : Type ℓ) : Type ℓ where
  ok : A → Outcome A
  throws : Outcome A
  fault : Outcome A

abbrev pub Action : Type 0 → Type 0 → Type 0
Action S A = S → Outcome A × S

module _ {S : Type 0} where
  abbrev pub pure : {A : Type 0} → A → Action S A
  pure a s = (ok a, s)

  infixl 5 ◌>>=◌ ◌>>◌
  abbrev pub ◌>>=◌ : {A B : Type 0} → Action S A → (A → Action S B) → Action S B
  ◌>>=◌ m f s =
      let (r, s') = m s in elim r [ ok a ↦ f a s' | throws ↦ (throws, s') | fault ↦ (fault, s') ]

  abbrev pub ◌>>◌ : {A B : Type 0} → Action S A → Action S B → Action S B
  m >> k = m >>= λ _. k

  abbrev pub gets : {A : Type 0} → (S → A) → Action S A
  gets f s = (ok (f s), s)

  abbrev pub modify : (S → S) → Action S (Unit {0})
  modify f s = (ok tt, f s)

  abbrev pub or_throw : {A : Type 0} → Option A → Action S A
  or_throw none s = (throws, s)
  or_throw (some a) s = (ok a, s)

  abbrev pub or_fault : {A : Type 0} → Option A → Action S A
  or_fault none s = (fault, s)
  or_fault (some a) s = (ok a, s)

  abbrev pub when : Bool → Action S (Unit {0}) → Action S (Unit {0})
  when b m s = if b then m s else (ok tt, s)

  -- `try { m } catch(const std::exception&) { }`: undefined behaviour is not caught.
  abbrev pub catching : Action S (Unit {0}) → Action S (Unit {0})
  catching m s =
      let (r, s') = m s in
      elim r [ ok a ↦ (ok tt, s') | throws ↦ (ok tt, s') | fault ↦ (fault, s') ]

-- A call on a part of the state.
abbrev pub zoom : {S T A : Type 0} → (S → T) → (T → S → S) → Action T A → Action S A
zoom get put m s = let (r, t) = m (get s) in (r, put t s)
