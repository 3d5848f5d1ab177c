-- ===== src/Funclib/Split.antt =====
-- funclib/simplefunc.cpp: `split`, a loop of `strtok` calls over a copy of the text.
pub mod Fields
pub mod Laws
pub mod RoundTrip
mod Tests
use inertia_trader.Common.{
  ℕ, zero, suc, ◌≡◌, refl, Bool, true, false, ◌||◌, Option, none, some, List, [], ◌∷◌, Text, codes,
  text_eq, length, ◌==◌, if◌then◌else◌,
}

unfoldable pub contains : ℕ → Text → Bool
contains c [] = false
contains c (d ∷ ds) = d == c || contains c ds

-- What `strcpy` copies of a text: the bytes before the first NUL.
unfoldable pub c_str : Text → Text
c_str [] = []
c_str (c ∷ s) = let rest = c_str s in if c == 0 then [] else c ∷ rest

-- `strtok`: skip delimiters, take the bytes before the next one, and go on behind that one.
pub skip_delims : Text → Text → Text
skip_delims ds [] = []
skip_delims ds (c ∷ s) = let rest = skip_delims ds s in if contains c ds then rest else c ∷ s

pub token : Text → Text → Text
token ds [] = []
token ds (c ∷ s) = let rest = token ds s in if contains c ds then [] else c ∷ rest

pub behind : Text → Text → Text
behind ds [] = []
behind ds (c ∷ s) = let rest = behind ds s in if contains c ds then s else rest

strtok_from : Text → Text → Option (Text × Text)
unfolding token behind
strtok_from ds [] = none
strtok_from ds (c ∷ s) = some (token ds (c ∷ s), behind ds (c ∷ s))

pub strtok : Text → Text → Option (Text × Text)
unfolding strtok_from skip_delims
strtok ds s = strtok_from ds (skip_delims ds s)

-- `while(p) { res.push_back(p); p = strtok(NULL, d); }`
pub split_loop : ℕ → Text → Text → List Text
unfolding strtok
split_loop zero ds s = []
split_loop (suc fuel) ds s = elim (strtok ds s) [
  | none ↦ []
  | some (p, rest) ↦ p ∷ split_loop fuel ds rest
]

-- One round for each byte, and one to see the end, are enough.
unfoldable pub split : Text → Text → List Text
unfolding split_loop c_str contains
split str delim =
    if text_eq str [] then [] else split_loop (suc (length (c_str str))) (c_str delim) (c_str str)

abbrev pub bar : Text
bar = codes "|"

abbrev pub amp : Text
amp = codes "&"
