-- ===== src/Common/Action/Triple.antt =====
-- What holds before and behind a call, by how it ends: rules for sequences of calls.
use mathlib.Core.Path.{◌≡◌, refl}
use mathlib.Core.Bool.{Bool, true, false}
use mathlib.Core.Option.{Option, none, some}
use inertia_trader.Common.Tests.{if◌then◌else◌}
use inertia_trader.Common.Action.{
  Action, Outcome, ok, throws, fault, ◌>>=◌, pure, gets, modify, or_throw, or_fault,
}

module _ {S : Type 0} where
  -- `F` holds of the value and the state where the call ends well, and `G` of the state where not.
  abbrev Ends : {A : Type 0} → (A → S → Type 0) → (S → Type 0) → Outcome A × S → Type 0
  Ends F G (ok a, s) = F a s
  Ends F G (throws, s) = G s
  Ends F G (fault, s) = G s

  pub record Triple {A : Type 0} (I : S → Type 0) (F : A → S → Type 0) (G : S → Type 0)
      (m : Action S A) : Type 0 where
    pub ends : (s : S) → I s → Ends F G (m s)

  -- The call keeps an invariant, however it ends.
  pub record Preserves {A : Type 0} (I : S → Type 0) (m : Action S A) : Type 0 where
    pub keeps : (s : S) → I s → I (m s).1

  Ends-bind :
      {A B : Type 0} (E : A → S → Type 0) (F : B → S → Type 0) (G : S → Type 0) (k : A → Action S B)
      (p : Outcome A × S)
      → Ends E G p
      → ((a : A) (s : S) → E a s → Ends F G (k a s))
      → Ends {A = B} F G
          (elim p.0 [ ok a ↦ k a p.1 | throws ↦ (throws, p.1) | fault ↦ (fault, p.1) ])
  Ends-bind E F G k (ok a, s) h next = next a s h
  Ends-bind E F G k (throws, s) h next = h
  Ends-bind E F G k (fault, s) h next = h

  pub Triple-bind :
      {A B : Type 0} {I : S → Type 0} (E : A → S → Type 0) {F : B → S → Type 0} {G : S → Type 0}
      {m : Action S A} {k : A → Action S B}
      → Triple I E G m
      → ((a : A) → Triple (E a) F G (k a))
      → Triple I F G (m >>= k)
  Triple-bind E {F = F} {G = G} {m = m} {k = k} first next = record {
    ends = λ s i. Ends-bind E F G k (m s) (first.ends s i) (λ a s' e. (next a).ends s' e);
  }

  Ends-any :
      {A : Type 0} (I : S → Type 0) (F : A → S → Type 0) (G : S → Type 0) (p : Outcome A × S)
      → I p.1
      → ((a : A) (s : S) → I s → F a s)
      → ((s : S) → I s → G s)
      → Ends F G p
  Ends-any I F G (ok a, s) h f g = f a s h
  Ends-any I F G (throws, s) h f g = g s h
  Ends-any I F G (fault, s) h f g = g s h

  -- A call that keeps an invariant, in front of others.
  pub Triple-Preserves :
      {A B : Type 0} {I : S → Type 0} {F : B → S → Type 0} {G : S → Type 0} {m : Action S A}
      {k : A → Action S B}
      → Preserves I m
      → ((s : S) → I s → G s)
      → ((a : A) → Triple I F G (k a))
      → Triple I F G (m >>= k)
  Triple-Preserves {I = I} {F = F} {G = G} {m = m} {k = k} first leave next = record {
    ends = λ s i.
        Ends-bind (λ _. I) F G k (m s)
          (Ends-any I (λ _. I) G (m s) (first.keeps s i) (λ _ _ h. h) leave)
          (λ a s' e. (next a).ends s' e);
  }

  pub Triple-last :
      {A : Type 0} {I : S → Type 0} {F : A → S → Type 0} {G : S → Type 0} {m : Action S A}
      → Preserves I m
      → ((a : A) (s : S) → I s → F a s)
      → ((s : S) → I s → G s)
      → Triple I F G m
  Triple-last {I = I} {F = F} {G = G} {m = m} last f g = record {
    ends = λ s i. Ends-any I F G (m s) (last.keeps s i) f g;
  }

  Ends-out : {A : Type 0} (G : S → Type 0) (p : Outcome A × S) → Ends (λ _. G) G p → G p.1
  Ends-out G (ok a, s) h = h
  Ends-out G (throws, s) h = h
  Ends-out G (fault, s) h = h

  Ends-leave :
      {A : Type 0} (F : A → S → Type 0) (G G' : S → Type 0) (p : Outcome A × S)
      → ((s : S) → G s → G' s)
      → Ends F G p
      → Ends F G' p
  Ends-leave F G G' (ok a, s) leave h = h
  Ends-leave F G G' (throws, s) leave h = leave s h
  Ends-leave F G G' (fault, s) leave h = leave s h

  pub Triple-leave :
      {A : Type 0} {I G G' : S → Type 0} {F : A → S → Type 0} {m : Action S A}
      → Triple I F G m
      → ((s : S) → G s → G' s)
      → Triple I F G' m
  Triple-leave {G = G} {G' = G'} {F = F} {m = m} h leave = record {
    ends = λ s i. Ends-leave F G G' (m s) leave (h.ends s i);
  }

  pub Triple-out :
      {A : Type 0} {I G : S → Type 0} {m : Action S A}
      → Triple I (λ _. G) G m
      → (s : S) → I s
      → G (m s).1
  Triple-out {G = G} {m = m} h s i = Ends-out G (m s) (h.ends s i)

  pub Preserves-Triple :
      {A : Type 0} {I : S → Type 0} {m : Action S A} → Triple I (λ _. I) I m → Preserves I m
  Preserves-Triple {I = I} {m = m} h = record { keeps = λ s i. Ends-out I (m s) (h.ends s i) }

  pub Preserves->>= :
      {A B : Type 0} {I : S → Type 0} {m : Action S A} {k : A → Action S B}
      → Preserves I m
      → ((a : A) → Preserves I (k a))
      → Preserves I (m >>= k)
  Preserves->>= first next =
      Preserves-Triple
        (Triple-Preserves first (λ _ i. i) (λ a. Triple-last (next a) (λ _ _ i. i) (λ _ i. i)))

  pub Triple-or_fault :
      {A : Type 0} {I : S → Type 0} (o : Option A)
      → Triple I (λ a s. I s × (o ≡ some a)) I (or_fault o)
  Triple-or_fault none = record { ends = λ s i. i }
  Triple-or_fault (some a) = record { ends = λ s i. (i, refl) }

  -- A value that the state gives, or none.
  pub Triple-found :
      {A : Type 0} {I : S → Type 0} (f : S → Option A)
      → Triple I (λ a s. I s × (f s ≡ some a)) I (λ s. or_fault (f s) s)
  Triple-found {A = A} {I = I} f = record { ends = λ s i. at (f s) s i refl }
    where
      at :
          (r : Option A) (s : S)
          → I s
          → f s ≡ r
          → Ends (λ a s. I s × (f s ≡ some a)) I (or_fault r s)
      at none s i e = i
      at (some a) s i e = (i, e)

  pub Preserves-or_fault : {A : Type 0} {I : S → Type 0} (o : Option A) → Preserves I (or_fault o)
  Preserves-or_fault none = record { keeps = λ s i. i }
  Preserves-or_fault (some a) = record { keeps = λ s i. i }

  pub Preserves-or_throw : {A : Type 0} {I : S → Type 0} (o : Option A) → Preserves I (or_throw o)
  Preserves-or_throw none = record { keeps = λ s i. i }
  Preserves-or_throw (some a) = record { keeps = λ s i. i }

  pub Preserves-pure : {A : Type 0} {I : S → Type 0} (a : A) → Preserves I (pure a)
  Preserves-pure a = record { keeps = λ s i. i }

  pub Preserves-gets : {A : Type 0} {I : S → Type 0} (f : S → A) → Preserves I (gets f)
  Preserves-gets f = record { keeps = λ s i. i }

  pub Preserves-if :
      {A : Type 0} {I : S → Type 0} (b : Bool) {m n : Action S A}
      → Preserves I m
      → Preserves I n
      → Preserves I (if b then m else n)
  Preserves-if true hm hn = hm
  Preserves-if false hm hn = hn

  pub Triple-modify :
      {I : S → Type 0} {F : Unit {0} → S → Type 0} {G : S → Type 0} (f : S → S)
      → ((s : S) → I s → F tt (f s))
      → Triple I F G (modify f)
  Triple-modify f h = record { ends = h }

  pub Preserves-modify :
      {I : S → Type 0} (f : S → S) → ((s : S) → I s → I (f s)) → Preserves I (modify f)
  Preserves-modify f h = record { keeps = h }

-- The rules for do blocks that keep an invariant.
pub ruleset preserve_rules = (
  Preserves->>=, Preserves-or_fault, Preserves-or_throw, Preserves-gets, Preserves-pure,
  Preserves-if,
)
