-- ===== src/Funclib/Split/Fields.antt =====
-- The reference definition of `split`: cut at every delimiter, and leave out what is empty.
use inertia_trader.Common.{
  ℕ, List, [], ◌∷◌, ◌++◌, Text, is_empty, if◌then◌else◌, ◌≢◌, false, ◌≡◌, All,
}
use inertia_trader.Funclib.Split.{contains}

-- `c` in front of the first piece
abbrev pub extend : ℕ → List Text → List Text
extend c [] = (c ∷ []) ∷ []
extend c (p ∷ ps) = (c ∷ p) ∷ ps

-- the pieces between the delimiters, the empty ones included
unfoldable pub pieces : Text → Text → List Text
unfolding contains
pieces ds [] = [] ∷ []
pieces ds (c ∷ s) = let rest = pieces ds s in if contains c ds then [] ∷ rest else extend c rest

unfoldable pub nonempties : List Text → List Text
nonempties [] = []
nonempties (p ∷ ps) = if is_empty p then nonempties ps else p ∷ nonempties ps

unfoldable pub fields : Text → Text → List Text
unfolding pieces nonempties
fields ds s = nonempties (pieces ds s)

-- The fields of a message, each with the delimiter behind it.
unfoldable pub join : ℕ → List Text → Text
join d [] = []
join d (f ∷ fs) = f ++ d ∷ join d fs

-- Not empty, and free of the delimiters and of NUL.
abbrev pub IsField : Text → Text → Type 0
IsField ds f = (f ≢ []) × All (λ c. (contains c ds ≡ false) × (c ≢ 0)) f
