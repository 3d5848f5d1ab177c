-- ===== src/Common/Action/Post.antt =====
-- What a call leaves of a part of the state, by how it ends: rules for sequences of calls.
use mathlib.Core.Path.{◌≡◌, refl, ◌∙◌, subst, sym}
use mathlib.Core.Bool.{Bool, true, false}
use mathlib.Core.Option.{Option, none, some}
use inertia_trader.Common.Tests.{if◌then◌else◌}
use inertia_trader.Common.Action.{
  Action, Outcome, ok, throws, fault, ◌>>=◌, or_throw, or_fault, when,
}

module _ {S X : Type 0} (f : S → X) where
  -- `F` holds of the part where the call ends with a value, and `G` where it does not.
  abbrev pub Post : {A : Type 0} → (X → Type 0) → (X → Type 0) → Outcome A × S → Type 0
  Post F G (ok a, s) = F (f s)
  Post F G (throws, s) = G (f s)
  Post F G (fault, s) = G (f s)

  -- The part stays as it is, however the call ends.
  unfoldable pub Keeps : {A : Type 0} → Action S A → Type 0
  Keeps m = (s : S) → f (m s).1 ≡ f s

  pub Post-bind :
      {A B : Type 0} (E F G : X → Type 0) (m : Action S A) (k : A → Action S B) (s : S)
      → Post E G (m s)
      → ((a : A) (s' : S) → E (f s') → Post F G (k a s'))
      → Post F G ((m >>= k) s)
  Post-bind {A = A} {B = B} E F G m k s first next = after (m s) first
    where
      after :
          (p : Outcome A × S)
          → Post {A = A} E G p
          → Post {A = B} F G
              (elim p.0 [ ok a ↦ k a p.1 | throws ↦ (throws, p.1) | fault ↦ (fault, p.1) ])
      after (ok a, s') h = next a s' h
      after (throws, s') h = h
      after (fault, s') h = h

  -- A predicate of the part alone, however the call ends.
  pub Post-any : {A : Type 0} (G : X → Type 0) (p : Outcome A × S) → G (f p.1) → Post G G p
  Post-any G (ok a, s) h = h
  Post-any G (throws, s) h = h
  Post-any G (fault, s) h = h

  pub any-Post : {A : Type 0} (G : X → Type 0) (p : Outcome A × S) → Post G G p → G (f p.1)
  any-Post G (ok a, s) h = h
  any-Post G (throws, s) h = h
  any-Post G (fault, s) h = h

  -- A call that keeps the part goes before another one.
  pub Keeps-Post :
      {A B : Type 0} (F G : X → Type 0) (x : X) (m : Action S A) (k : A → Action S B) (s : S)
      → f s ≡ x
      → Keeps m
      → G x
      → ((a : A) (s' : S) → f s' ≡ x → Post F G (k a s'))
      → Post F G ((m >>= k) s)
  unfolding Keeps
  Keeps-Post {A = A} {B = B} F G x m k s e keeps here next = after (m s) (keeps s ∙ e)
    where
      after :
          (p : Outcome A × S)
          → f p.1 ≡ x
          → Post {A = B} F G
              (elim p.0 [ ok a ↦ k a p.1 | throws ↦ (throws, p.1) | fault ↦ (fault, p.1) ])
      after (ok a, s') d = next a s' d
      after (throws, s') d = subst G (sym d) here
      after (fault, s') d = subst G (sym d) here

  pub Keeps->>= :
      {A B : Type 0} (m : Action S A) (k : A → Action S B)
      → Keeps m
      → ((a : A) → Keeps (k a))
      → Keeps (m >>= k)
  unfolding Keeps
  Keeps->>= m k first next s =
      any-Post (λ x. x ≡ f s) ((m >>= k) s)
        (Keeps-Post (λ x. x ≡ f s) (λ x. x ≡ f s) (f s) m k s refl first refl
          (λ a s' e. Post-any (λ x. x ≡ f s) (k a s') (next a s' ∙ e)))

  pub Keeps-or_fault : {A : Type 0} (o : Option A) → Keeps (or_fault o)
  unfolding Keeps
  Keeps-or_fault none s = refl
  Keeps-or_fault (some a) s = refl

  pub Keeps-or_throw : {A : Type 0} (o : Option A) → Keeps (or_throw o)
  unfolding Keeps
  Keeps-or_throw none s = refl
  Keeps-or_throw (some a) s = refl

  pub Keeps-if :
      {A : Type 0} (b : Bool) (m n : Action S A) → Keeps m → Keeps n → Keeps (if b then m else n)
  Keeps-if true m n hm hn = hm
  Keeps-if false m n hm hn = hn

  pub Keeps-when : (b : Bool) (m : Action S (Unit {0})) → Keeps m → Keeps (when b m)
  unfolding Keeps
  Keeps-when true m keeps s = keeps s
  Keeps-when false m keeps s = refl
