-- ===== src/Trader/Books/Sorted.antt =====
-- The raw books of the trader, `std::multiset<Order*>`, as sorted lists and as multisets.
use inertia_trader.Common.{ℕ, suc, ◌≤◌, ◌≡◌, refl, List, [], ◌∷◌, ◌++◌, ◌==◌, if◌then◌else◌, arith}
use inertia_trader.Trader.Books.{multiset_insert}

abbrev Below : ℕ → List ℕ → Type 0
Below a [] = Unit
Below a (b ∷ bs) = a ≤ b

-- No entry is above the one behind it.
abbrev pub IsSorted : List ℕ → Type 0
IsSorted [] = Unit
IsSorted (a ∷ bs) = Below a bs × IsSorted bs

-- How often an address is in a book.
abbrev pub count : ℕ → List ℕ → ℕ
count a [] = 0
count a (b ∷ bs) = let rest = count a bs in if a == b then suc rest else rest

Below-multiset_insert :
    (a b : ℕ) (bs : List ℕ) → b ≤ a → Below b bs → Below b (multiset_insert a bs)
unfolding multiset_insert
Below-multiset_insert a b [] h _ = h
Below-multiset_insert a b (c ∷ bs) h k = ground arith

-- An insertion into a book that is sorted by address gives a book that is sorted.
pub multiset_insert-IsSorted : (a : ℕ) (bs : List ℕ) → IsSorted bs → IsSorted (multiset_insert a bs)
unfolding multiset_insert
multiset_insert-IsSorted a [] _ = (tt, tt)
multiset_insert-IsSorted a (b ∷ bs) (low, h) =
    ground (arith, multiset_insert-IsSorted a bs h, Below-multiset_insert a b bs)

-- It adds one occurrence of the address, and changes the count of no other.
pub count-multiset_insert :
    (c a : ℕ) (bs : List ℕ) → count c (multiset_insert a bs) ≡ count c (a ∷ bs)
unfolding multiset_insert
count-multiset_insert c a [] = refl
count-multiset_insert c a (b ∷ bs) = ground (arith, count-multiset_insert c a bs)

Below-remove :
    (a b : ℕ) (front bs : List ℕ)
    → Below a (front ++ b ∷ bs)
    → IsSorted (front ++ b ∷ bs)
    → Below a (front ++ bs)
Below-remove a b [] [] h s = tt
Below-remove a b [] (c ∷ bs) h s = omega (arith, s.0)
Below-remove a b (c ∷ front) bs h s = h

-- A book without one of its entries.
pub IsSorted-remove :
    (b : ℕ) (front bs : List ℕ) → IsSorted (front ++ b ∷ bs) → IsSorted (front ++ bs)
IsSorted-remove b [] bs s = s.1
IsSorted-remove b (a ∷ front) bs (low, s) =
    (Below-remove a b front bs low s, IsSorted-remove b front bs s)
