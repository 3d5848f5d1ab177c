-- ===== src/Common/Map.antt =====
-- `std::map` as the list of its entries in the order of their keys.
use mathlib.Core.Path.{◌≡◌, refl}
use mathlib.Core.Logic.{◌↔◌, ◌≢◌, inl, inr}
use mathlib.Core.Bool.{Bool, true}
use mathlib.Core.Option.{Option, none, some}
use mathlib.Core.List.{List, [], ◌∷◌}
use Prim.Native.Nat.{ℕ}
use native.Mathlib.Omega.{arith}
use inertia_trader.Common.Tests.{ltb, ◌==◌, ==_iff, if◌then◌else◌, Option-cases}
use inertia_trader.Common.Texts.{Text, text_eq, text_lt, text_eq_iff}
use inertia_trader.Common.Int.{ℤ, int_eq, int_lt, int_eq_iff}

pub record Key {ℓ} (K : Type ℓ) : Type ℓ where
  pub beq : K → K → Bool
  pub before : K → K → Bool
  pub beq_iff : (a b : K) → (beq a b ≡ true) ↔ (a ≡ b)

instance abbrev pub text_key : Key Text
text_key = record { beq = text_eq; before = text_lt; beq_iff = text_eq_iff }

instance abbrev pub int_key : Key ℤ
int_key = record { beq = int_eq; before = int_lt; beq_iff = int_eq_iff }

instance abbrev pub nat_key : Key ℕ
nat_key = record { beq = ◌==◌; before = ltb; beq_iff = ==_iff }

abbrev pub Map {ℓ κ} : Type ℓ → Type κ → Type (ℓ ⊔ κ)
Map K V = List (K × V)

module _ {ℓ κ} {K : Type ℓ} {V : Type κ} ⦃key : Key K⦄ where
  -- `m.find(k)`
  abbrev pub lookup : K → Map K V → Option V
  lookup k [] = none
  lookup k ((j, v) ∷ m) = if key.beq j k then some v else lookup k m

  -- the place of a new key among the others
  abbrev pub place : K → V → Map K V → Map K V
  place k v [] = (k, v) ∷ []
  place k v ((j, w) ∷ m) = if key.before k j then (k, v) ∷ (j, w) ∷ m else (j, w) ∷ place k v m

  -- `m.insert({k, v})` leaves an entry under `k` as it is.
  abbrev pub insert : K → V → Map K V → Map K V
  insert k v m = elim (lookup k m) [ none ↦ place k v m | some w ↦ m ]

  abbrev pub replace : K → V → Map K V → Map K V
  replace k v [] = []
  replace k v ((j, w) ∷ m) = if key.beq j k then (j, v) ∷ m else (j, w) ∷ replace k v m

  -- `m[k] = v`
  abbrev pub assign : K → V → Map K V → Map K V
  assign k v m = elim (lookup k m) [ none ↦ place k v m | some w ↦ replace k v m ]

module _ {ℓ κ} {K : Type ℓ} {V : Type κ} ⦃key : Key K⦄ where
  pub lookup-place_self :
      (k : K) (v : V) (m : Map K V) → lookup k m ≡ none → lookup k (place k v m) ≡ some v
  lookup-place_self k v [] h = ground (arith, key.beq_iff k k)
  lookup-place_self k v ((j, w) ∷ m) h =
      ground (arith, key.beq_iff k k, key.beq_iff j k, lookup-place_self k v m)

  pub lookup-place_ne :
      (k i : K) (v : V) (m : Map K V) → i ≢ k → lookup i (place k v m) ≡ lookup i m
  lookup-place_ne k i v [] h = ground (arith, key.beq_iff k i)
  lookup-place_ne k i v ((j, w) ∷ m) h =
      ground (arith, key.beq_iff k i, key.beq_iff j i, lookup-place_ne k i v m h)

  pub lookup-replace_self :
      (k : K) (v w : V) (m : Map K V) → lookup k m ≡ some w → lookup k (replace k v m) ≡ some v
  lookup-replace_self k v w [] h = cc
  lookup-replace_self k v w ((j, u) ∷ m) h =
      ground (arith, key.beq_iff j k, lookup-replace_self k v w m)

  pub lookup-replace_ne :
      (k i : K) (v : V) (m : Map K V) → i ≢ k → lookup i (replace k v m) ≡ lookup i m
  lookup-replace_ne k i v [] h = refl
  lookup-replace_ne k i v ((j, u) ∷ m) h =
      ground (arith, key.beq_iff j k, key.beq_iff j i, lookup-replace_ne k i v m h)

  -- What an assignment to a key that is there, and to another key, leaves behind.
  pub lookup-assign_self :
      (k : K) (v w : V) (m : Map K V) → lookup k m ≡ some w → lookup k (assign k v m) ≡ some v
  lookup-assign_self k v w m h = rw (h, assign) (lookup-replace_self k v w m h)

  pub lookup-assign_ne :
      (k i : K) (v w : V) (m : Map K V)
      → lookup k m ≡ some w
      → i ≢ k
      → lookup i (assign k v m) ≡ lookup i m
  lookup-assign_ne k i v w m h ne = rw (h, assign) (lookup-replace_ne k i v m ne)

  -- The same for any key.
  pub lookup-assign_any : (k : K) (v : V) (m : Map K V) → lookup k (assign k v m) ≡ some v
  lookup-assign_any k v m = elim (Option-cases (lookup k m)) [
    | inl missing ↦ rw (missing, assign) (lookup-place_self k v m missing)
    | inr (w, there) ↦ lookup-assign_self k v w m there
  ]

  pub lookup-assign_other :
      (k i : K) (v : V) (m : Map K V) → i ≢ k → lookup i (assign k v m) ≡ lookup i m
  lookup-assign_other k i v m ne = elim (Option-cases (lookup k m)) [
    | inl missing ↦ rw (missing, assign) (lookup-place_ne k i v m ne)
    | inr (w, there) ↦ lookup-assign_ne k i v w m there ne
  ]
