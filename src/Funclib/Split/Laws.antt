-- ===== src/Funclib/Split/Laws.antt =====
-- `split` (funclib/simplefunc.cpp) beside its reference definition.
use mathlib.Core.Path.{ap₂}
use inertia_trader.Common.{
  ℕ, zero, suc, ◌≤◌, ◌<◌, ◌≡◌, refl, sym, ◌∙◌, ap, ◌≢◌, ◌⊎◌, true, false, none, some, List, [], ◌∷◌,
  ◌++◌, Text, All, length, arith, inl, inr, Bool-cases,
}
use inertia_trader.Funclib.Split.{
  contains, c_str, skip_delims, token, behind, strtok, split_loop, split,
}
use inertia_trader.Funclib.Split.Fields.{extend, pieces, nonempties, fields}

length-behind : (ds s : Text) → length (behind ds s) ≤ length s
unfolding behind
length-behind ds [] = omega arith
length-behind ds (c ∷ s) = ground (arith, length-behind ds s)

length-skip_delims : (ds s : Text) → length (skip_delims ds s) ≤ length s
unfolding skip_delims
length-skip_delims ds [] = omega arith
length-skip_delims ds (c ∷ s) = ground (arith, length-skip_delims ds s)

-- The delimiters in front make no field.
fields-skip_delims : (ds s : Text) → fields ds (skip_delims ds s) ≡ fields ds s
unfolding fields skip_delims
fields-skip_delims ds [] = refl
fields-skip_delims ds (c ∷ s) = ground (arith, fields-skip_delims ds s)

-- The first piece is the token, and the others are those behind it.
more : Text → Text → List Text
unfolding behind
more ds [] = []
more ds (c ∷ s) = elim (contains c ds) [ true ↦ pieces ds s | false ↦ more ds s ]

pieces-token : (ds s : Text) → pieces ds s ≡ token ds s ∷ more ds s
unfolding pieces token more
pieces-token ds [] = refl
pieces-token ds (c ∷ s) = ground (arith, pieces-token ds s)

nonempties-more : (ds s : Text) → nonempties (more ds s) ≡ fields ds (behind ds s)
unfolding more behind fields
nonempties-more ds [] = refl
nonempties-more ds (c ∷ s) = ground (arith, nonempties-more ds s)

fields-nil : (ds : Text) → [] ≡ fields ds []
unfolding fields
fields-nil ds = refl

skip_delims-cases :
    (ds s : Text)
    → (skip_delims ds s ≡ [])
      ⊎ ((c : ℕ) × (r : Text) × (skip_delims ds s ≡ c ∷ r) × (contains c ds ≡ false))
unfolding skip_delims
skip_delims-cases ds [] = inl refl
skip_delims-cases ds (c ∷ s) = elim (Bool-cases (contains c ds)) [
  | inl delim ↦ rw delim (skip_delims-cases ds s)
  | inr other ↦ rw other (inr (c, s, refl, other))
]

token-cons :
    (ds : Text) (c : ℕ) (r : Text) → contains c ds ≡ false → token ds (c ∷ r) ≡ c ∷ token ds r
unfolding token
token-cons ds c r other = ground arith

behind-cons :
    (ds : Text) (c : ℕ) (r : Text) → contains c ds ≡ false → behind ds (c ∷ r) ≡ behind ds r
unfolding behind
behind-cons ds c r other = ground arith

-- A token that begins with no delimiter is the first field, and the others are behind it.
fields-token :
    (ds : Text) (c : ℕ) (r : Text)
    → contains c ds ≡ false
    → fields ds (c ∷ r) ≡ token ds (c ∷ r) ∷ fields ds (behind ds (c ∷ r))
unfolding fields
fields-token ds c r other =
    ap nonempties (pieces-token ds (c ∷ r))
    ∙ rw (token-cons ds c r other) (ap (◌∷◌ (c ∷ token ds r)) (nonempties-more ds (c ∷ r)))

strtok-nil : (ds s : Text) → skip_delims ds s ≡ [] → strtok ds s ≡ none
unfolding strtok
strtok-nil ds s e = rw e

strtok-cons :
    (ds s : Text) (c : ℕ) (r : Text)
    → skip_delims ds s ≡ c ∷ r
    → strtok ds s ≡ some (token ds (c ∷ r), behind ds (c ∷ r))
unfolding strtok
strtok-cons ds s c r e = rw e

rest_shorter :
    (ds s : Text) (c : ℕ) (r : Text)
    → skip_delims ds s ≡ c ∷ r
    → contains c ds ≡ false
    → length (behind ds (c ∷ r)) < length s
rest_shorter ds s c r e other = omega (
  arith,
  ap length (behind-cons ds c r other),
  ap length e,
  length-behind ds r,
  length-skip_delims ds s,
)

split_loop-fields : (fuel : ℕ) (ds s : Text) → length s < fuel → split_loop fuel ds s ≡ fields ds s
unfolding split_loop
split_loop-fields zero ds s h = elim h [ ]
split_loop-fields (suc fuel) ds s h = elim (skip_delims-cases ds s) [
  | inl e ↦ rw (strtok-nil ds s e, split_loop, ← fields-skip_delims ds s, e) (fields-nil ds)
  | inr (c, r, e, other) ↦
      rw
        (
          strtok-cons ds s c r e,
          split_loop,
          ← fields-skip_delims ds s,
          e,
          fields-token ds c r other,
        )
        (ap (◌∷◌ (token ds (c ∷ r))) (
          split_loop-fields fuel ds (behind ds (c ∷ r))
            (omega (arith, rest_shorter ds s c r e other))))
]

-- `split` cuts the text up to its first NUL at every delimiter, and leaves out the empty pieces.
pub split-fields : (str delim : Text) → split str delim ≡ fields (c_str delim) (c_str str)
unfolding split
split-fields [] delim = fields-nil (c_str delim)
split-fields (c ∷ s) delim =
    split_loop-fields (suc (length (c_str (c ∷ s)))) (c_str delim) (c_str (c ∷ s)) (omega arith)

extend-append :
    (c : ℕ) (p : Text) (ps qs : List Text) → extend c ((p ∷ ps) ++ qs) ≡ extend c (p ∷ ps) ++ qs
extend-append c p ps qs = refl

-- A delimiter cuts the pieces in two.
pieces-cut :
    (ds a : Text) (d : ℕ) (b : Text)
    → contains d ds ≡ true
    → pieces ds (a ++ d ∷ b) ≡ pieces ds a ++ pieces ds b
unfolding pieces
pieces-cut ds [] d b h = ground arith
pieces-cut ds (c ∷ a) d b h = ground (
  arith,
  pieces-cut ds a d b h,
  pieces-token ds a,
  extend-append c (token ds a) (more ds a) (pieces ds b),
)

nonempties-append : (ps qs : List Text) → nonempties (ps ++ qs) ≡ nonempties ps ++ nonempties qs
unfolding nonempties
nonempties-append [] qs = refl
nonempties-append (p ∷ ps) qs = ground (arith, nonempties-append ps qs)

fields-cut :
    (ds a : Text) (d : ℕ) (b : Text)
    → contains d ds ≡ true
    → fields ds (a ++ d ∷ b) ≡ fields ds a ++ fields ds b
unfolding fields
fields-cut ds a d b h =
    ap nonempties (pieces-cut ds a d b h) ∙ nonempties-append (pieces ds a) (pieces ds b)

abbrev pub NoNul : Text → Type 0
NoNul = All (λ c. c ≢ 0)

c_str-NoNul : (a b : Text) → NoNul a → c_str (a ++ b) ≡ a ++ c_str b
unfolding c_str
c_str-NoNul [] b h = refl
c_str-NoNul (c ∷ a) b h = ground (arith, c_str-NoNul a b h.1)

pub c_str_self : (a : Text) → NoNul a → c_str a ≡ a
unfolding c_str
c_str_self [] h = refl
c_str_self (c ∷ a) h = ground (arith, c_str_self a h.1)

contains_self : (d : ℕ) → d ≢ 0 → contains d (c_str (d ∷ [])) ≡ true
unfolding contains c_str
contains_self d nz = ground arith

-- The fields of two texts with the delimiter between them.
pub split-cut :
    (a b : Text) (d : ℕ)
    → d ≢ 0
    → NoNul a
    → split (a ++ d ∷ b) (d ∷ []) ≡ split a (d ∷ []) ++ split b (d ∷ [])
split-cut a b d nz h =
    split-fields (a ++ d ∷ b) (d ∷ [])
    ∙ ap (fields (c_str (d ∷ [])))
        (c_str-NoNul a (d ∷ b) h ∙ ap (◌++◌ a) (c_str-NoNul (d ∷ []) b (nz, tt)))
    ∙ fields-cut (c_str (d ∷ [])) a d (c_str b) (contains_self d nz)
    ∙ ap (λ s. fields (c_str (d ∷ [])) s ++ fields (c_str (d ∷ [])) (c_str b))
        (sym (c_str_self a h))
    ∙ ap₂ ◌++◌ (sym (split-fields a (d ∷ []))) (sym (split-fields b (d ∷ [])))
