-- ===== src/Trader/Books.antt =====
-- The books: `std::multiset<Order*>`, ordered by address, and `std::vector<Order*>`.
pub mod Sorted
use inertia_trader.Common.{
  ℕ, Bool, true, false, Option, none, some, List, [], ◌∷◌, ◌++◌, Text, text_eq, ltb, leb,
  if◌then◌else◌,
}
use inertia_trader.Common.Map.{lookup, nat_key}
use inertia_trader.Common.Action.{Action, Outcome, ok, throws, fault}
use inertia_trader.Types.{Side}
use inertia_trader.Trader.{Order, Trader}

-- An equal key goes behind those that are there.
unfoldable pub multiset_insert : ℕ → List ℕ → List ℕ
multiset_insert a [] = a ∷ []
multiset_insert a (b ∷ bs) =
    let rest = multiset_insert a bs in if ltb a b then a ∷ b ∷ bs else b ∷ rest

-- `*std::prev(end())` and what is left without it
unfoldable pub split_end : List ℕ → Option (List ℕ × ℕ)
split_end [] = none
split_end (a ∷ rest) = elim (split_end rest) [
  | none ↦ some ([], a)
  | some (front, b) ↦ some (a ∷ front, b)
]

module _ {N : Type 0} where
  abbrev pub insert_by_side : Option Side → ℕ → Trader N → Trader N
  insert_by_side (some Side.buy) a t = record t { raw_buyside = multiset_insert a t.raw_buyside }
  insert_by_side (some Side.sell) a t = record t { raw_sellside = multiset_insert a t.raw_sellside }
  insert_by_side (some Side.none) a t = record t { raw_sellside = multiset_insert a t.raw_sellside }
  insert_by_side none a t = t

  -- `Trader::orderDataInsert`; its `cv_m.unlock()` is in Trader/Threads.
  unfoldable pub order_data_insert : ℕ → Order N → Action (Trader N) (Unit {0})
  order_data_insert a o t = elim o.side [
    | none ↦ (fault, t)
    | some s ↦ (ok tt, insert_by_side (some s) a t)
  ]

  -- The first order of a vector with this NID, as the orders in front of it, its address and those
  -- behind it. A pointer of the vector that is not on the heap ends the search.
  unfoldable pub find_nid : Text → Trader N → List ℕ → Outcome (Option (List ℕ × ℕ × List ℕ))
  find_nid nid t [] = ok none
  find_nid nid t (a ∷ rest) =
      let later = find_nid nid t rest in
      elim (lookup a t.orders) [
        | none ↦ fault
        | some o ↦ if text_eq o.nid nid then ok (some ([], a, rest)) else elim later [
          | ok none ↦ ok none
          | ok (some (front, b, bs)) ↦ ok (some (a ∷ front, b, bs))
          | throws ↦ throws
          | fault ↦ fault
        ]
      ]
