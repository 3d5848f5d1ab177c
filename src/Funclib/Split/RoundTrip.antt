-- ===== src/Funclib/Split/RoundTrip.antt =====
-- `split` (funclib/simplefunc.cpp) on messages that are written from their fields.
use mathlib.Core.Path.{ap₂}
use inertia_trader.Common.{
  ℕ, ◌≡◌, refl, sym, ◌∙◌, ap, ◌≢◌, true, false, List, [], ◌∷◌, ◌++◌, Text, All, arith, append_assoc,
  append-nil,
}
use inertia_trader.Funclib.Split.{contains, c_str, split, bar}
use inertia_trader.Funclib.Split.Fields.{pieces, nonempties, fields, join, IsField}
use inertia_trader.Funclib.Split.Laws.{split-fields}

abbrev IsClean : Text → ℕ → Type 0
IsClean ds c = (contains c ds ≡ false) × (c ≢ 0)

pieces-append :
    (ds f : Text) (d : ℕ) (s : Text)
    → contains d ds ≡ true
    → All (IsClean ds) f
    → pieces ds (f ++ d ∷ s) ≡ f ∷ pieces ds s
unfolding pieces
pieces-append ds [] d s delim h = ground arith
pieces-append ds (c ∷ f) d s delim h = ground (arith, pieces-append ds f d s delim h.1)

fields-append :
    (ds f : Text) (d : ℕ) (s : Text)
    → contains d ds ≡ true
    → IsField ds f
    → fields ds (f ++ d ∷ s) ≡ f ∷ fields ds s
unfolding fields
fields-append ds [] d s delim h = absurd (h.0 refl)
fields-append ds (c ∷ f) d s delim h = ap nonempties (pieces-append ds (c ∷ f) d s delim h.1)

fields-join :
    (ds : Text) (d : ℕ) (fs : List Text) (s : Text)
    → contains d ds ≡ true
    → All (IsField ds) fs
    → fields ds (join d fs ++ s) ≡ fs ++ fields ds s
unfolding join
fields-join ds d [] s delim h = refl
fields-join ds d (f ∷ fs) s delim h =
    ap (fields ds) (append_assoc f (d ∷ join d fs) s)
    ∙ fields-append ds f d (join d fs ++ s) delim h.0
    ∙ ap (◌∷◌ f) (fields-join ds d fs s delim h.1)

c_str-append : (ds f s : Text) → All (IsClean ds) f → c_str (f ++ s) ≡ f ++ c_str s
unfolding c_str
c_str-append ds [] s h = refl
c_str-append ds (c ∷ f) s h = ground (arith, c_str-append ds f s h.1)

c_str-cons : (c : ℕ) (s : Text) → c ≢ 0 → c_str (c ∷ s) ≡ c ∷ c_str s
unfolding c_str
c_str-cons c s h = ground arith

c_str-join :
    (ds : Text) (d : ℕ) (fs : List Text) (s : Text)
    → d ≢ 0
    → All (IsField ds) fs
    → c_str (join d fs ++ s) ≡ join d fs ++ c_str s
unfolding join
c_str-join ds d [] s nz h = refl
c_str-join ds d (f ∷ fs) s nz h =
    ap c_str (append_assoc f (d ∷ join d fs) s)
    ∙ c_str-append ds f (d ∷ join d fs ++ s) h.0.1
    ∙ ap (◌++◌ f) (c_str-cons d (join d fs ++ s) nz ∙ ap (◌∷◌ d) (c_str-join ds d fs s nz h.1))
    ∙ sym (append_assoc f (d ∷ join d fs) (c_str s))

-- The fields in front of any rest come back, and after them the fields of the rest.
pub split-join-append :
    (fs : List Text) (s : Text)
    → All (IsField bar) fs
    → split (join b'|' fs ++ s) bar ≡ fs ++ split s bar
unfolding contains c_str
split-join-append fs s h =
    split-fields (join b'|' fs ++ s) bar
    ∙ ap (fields bar) (c_str-join bar b'|' fs s (omega arith) h)
    ∙ fields-join bar b'|' fs (c_str s) refl h
    ∙ ap (◌++◌ fs) (sym (split-fields s bar))

-- A message of non-empty fields, each closed by a bar, is split into just these fields.
pub split-join : (fs : List Text) → All (IsField bar) fs → split (join b'|' fs) bar ≡ fs
unfolding split
split-join fs h =
    ap (λ s. split s bar) (sym (append-nil (join b'|' fs)))
    ∙ split-join-append fs [] h
    ∙ append-nil fs

pieces_self : (ds f : Text) → All (IsClean ds) f → pieces ds f ≡ f ∷ []
unfolding pieces
pieces_self ds [] h = refl
pieces_self ds (c ∷ f) h = ground (arith, pieces_self ds f h.1)

nonempties_self : (f : Text) → f ≢ [] → nonempties (f ∷ []) ≡ f ∷ []
unfolding nonempties
nonempties_self [] h = absurd (h refl)
nonempties_self (c ∷ f) h = refl

-- A text without the delimiter is one field.
pub split_self : (d : ℕ) (f : Text) → d ≢ 0 → IsField (d ∷ []) f → split f (d ∷ []) ≡ f ∷ []
unfolding fields c_str
split_self d f nz h =
    split-fields f (d ∷ [])
    ∙ ap₂ fields (c_str-cons d [] nz)
        (sym (ap c_str (append-nil f)) ∙ c_str-append (d ∷ []) f [] h.1 ∙ append-nil f)
    ∙ ap nonempties (pieces_self (d ∷ []) f h.1)
    ∙ nonempties_self f h.0
