-- ===== src/Funclib/InitParser.antt =====
-- funclib/initParser.{h,cpp}: one section of an ini file. The file is a parameter: `none` if it
-- cannot be opened, or its lines.
pub mod Section
pub mod Scan
pub mod Reads
use inertia_trader.Common.{
  ℕ, zero, suc, ◌+◌, ◌≡◌, refl, Bool, true, false, ◌&&◌, ◌||◌, Option, none, some, List, [], ◌∷◌,
  ◌++◌, Text, codes, get_elem?, ltb, ◌==◌, if◌then◌else◌,
}
use inertia_trader.Common.Map.{lookup, Map, assign, text_key}
use inertia_trader.Common.Action.{
  Action, Outcome, ok, fault, ◌>>=◌, ◌>>◌, or_fault, modify, pure, when, gets,
}

pub record InitParser : Type 0 where
  pub ini_container : Map Text Text
  pub tag_line_num : List ℕ
  pub start_pos : ℕ
  pub end_pos : ℕ
  pub target : Text

unfoldable pub new_parser : Text → InitParser
new_parser target = record {
  ini_container = [];
  tag_line_num = [];
  start_pos = 0;
  end_pos = 0;
  target = target;
}

-- `line[0]=='['`; an empty line has a NUL there.
unfoldable pub is_tag : Text → Bool
is_tag [] = false
is_tag (c ∷ s) = c == b'['

unfoldable pub is_prefix : Text → Text → Bool
is_prefix [] s = true
is_prefix (p ∷ ps) [] = false
is_prefix (p ∷ ps) (c ∷ s) = p == c && is_prefix ps s

-- `line.find(pattern) != npos`
unfoldable pub is_infix : Text → Text → Bool
unfolding is_prefix
is_infix p [] = is_prefix p []
is_infix p (c ∷ s) = is_prefix p (c ∷ s) || is_infix p s

abbrev pub header : Text → Text
header target = b'[' ∷ target ++ b']' ∷ []

unfoldable pub names_target : Text → Text → Bool
unfolding is_infix
names_target target line = is_infix (header target) line

note_line : ℕ → Text → InitParser → InitParser
unfolding is_tag names_target
note_line num line p = record p {
  tag_line_num = if is_tag line then p.tag_line_num ++ num ∷ [] else p.tag_line_num;
  start_pos = if names_target p.target line then num else p.start_pos;
}

-- The first loop, from the line behind `num`; it also returns the number of the last line.
scan_lines : ℕ → List Text → InitParser → ℕ × InitParser
unfolding note_line
scan_lines num [] p = (num, p)
scan_lines num (l ∷ ls) p = scan_lines (num + 1) ls (note_line (num + 1) l p)

-- The place of the first equal entry, or the length.
pub index_of : ℕ → List ℕ → ℕ
index_of n [] = 0
index_of n (m ∷ ms) = if m == n then 0 else suc (index_of n ms)

-- `tagLineNum_[index+1]` is a read past the end of the vector when no tag comes later.
pub find_end : ℕ → Action InitParser (Unit {0})
unfolding index_of
find_end linenum = do
  p ← gets (λ p. p)
  next ← or_fault (get_elem? p.tag_line_num (suc (index_of p.start_pos p.tag_line_num)))
  modify (λ p. record p { end_pos = if next == 0 then linenum + 1 else next })

pub find_line : Option (List Text) → Action InitParser (Unit {0})
unfolding scan_lines find_end
find_line none = pure tt
find_line (some lines) = λ p.
    let (linenum, p1) = scan_lines 0 lines p in
    if p1.start_pos == 0 then (ok tt, p1) else find_end linenum p1

-- The assignments of a line: for each `=`, what stands before it, back to the one before, and all
-- that stands behind it.
unfoldable pub assignments : Text → Text → Map Text Text → Map Text Text
assignments acc [] m = m
assignments acc (c ∷ s) m =
    assignments (if c == b'=' then [] else acc ++ c ∷ []) s
      (if c == b'=' then assign acc s m else m)

read_lines : ℕ → List Text → InitParser → InitParser
unfolding assignments
read_lines num [] p = p
read_lines num (l ∷ ls) p = read_lines (num + 1) ls (
    if ltb p.start_pos (num + 1) && ltb (num + 1) p.end_pos
    then record p { ini_container = assignments [] l p.ini_container }
    else p)

read_file : Option (List Text) → Action InitParser (Unit {0})
unfolding read_lines
read_file none = pure tt
read_file (some lines) = modify (read_lines 0 lines)

unfoldable pub read_line : Option (List Text) → Action InitParser (Unit {0})
unfolding find_line read_file
read_line file = do find_line file; read_file file

-- `iniContainer[key]`: an empty text where the key is missing
abbrev pub setting : Text → InitParser → Text
setting key p = elim (lookup key p.ini_container) [ none ↦ [] | some v ↦ v ]
