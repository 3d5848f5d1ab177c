-- ===== src/Funclib/InitParser/Reads.antt =====
-- What `readLine` reads of a section that has another tag behind it, and of one that has none.
use inertia_trader.Common.{
  ℕ, ◌+◌, ◌≤◌, ◌<◌, ◌≡◌, refl, ap, ◌∙◌, true, some, List, [], ◌∷◌, ◌++◌, Text, length, get_elem?,
  if◌then◌else◌, ltb, ◌&&◌, arith,
}
use inertia_trader.Common.Map.{Map, text_key}
use inertia_trader.Common.Action.{ok, fault}
use inertia_trader.Common.Action.Laws.{>>=-ok, >>=-fault}
use inertia_trader.Funclib.InitParser.Scan.{
  Section, file_of, tags, scanned, next_tag, find_line-Section, find_end-none, find_end-some,
  zero_plus,
}
use inertia_trader.Funclib.InitParser.{
  InitParser, new_parser, is_tag, find_line, assignments, read_lines, read_file, read_line,
}

-- The assignments of some lines, each over those of the lines before it.
abbrev pub assign_all : List Text → Map Text Text → Map Text Text
assign_all [] m = m
assign_all (l ∷ ls) m = assign_all ls (assignments [] l m)

abbrev read_next : ℕ → Text → InitParser → InitParser
read_next num l p =
    if ltb p.start_pos (num + 1) && ltb (num + 1) p.end_pos
    then record p { ini_container = assignments [] l p.ini_container }
    else p

read_next-before :
    (num : ℕ) (l : Text) (p : InitParser) → num + 1 ≤ p.start_pos → read_next num l p ≡ p
read_next-before num l p h = ground arith

read_next-behind :
    (num : ℕ) (l : Text) (p : InitParser) → p.end_pos ≤ num + 1 → read_next num l p ≡ p
read_next-behind num l p h = ground arith

read_next-within :
    (num : ℕ) (l : Text) (p : InitParser)
    → p.start_pos ≤ num
    → num + 1 < p.end_pos
    → read_next num l p ≡ record p { ini_container = assignments [] l p.ini_container }
read_next-within num l p h k = ground arith

read_lines-append :
    (num : ℕ) (xs ys : List Text) (p : InitParser)
    → read_lines num (xs ++ ys) p ≡ read_lines (num + length xs) ys (read_lines num xs p)
unfolding read_lines
read_lines-append num [] ys p = ap (λ n. read_lines n ys p) (omega arith)
read_lines-append num (x ∷ xs) ys p =
    read_lines-append (num + 1) xs ys (read_next num x p)
    ∙ ap (λ n. read_lines n ys (read_lines (num + 1) xs (read_next num x p))) (omega arith)

-- Lines up to the head of the section, and from its end on, are passed over.
read_lines-before :
    (num : ℕ) (ls : List Text) (p : InitParser)
    → num + length ls ≤ p.start_pos
    → read_lines num ls p ≡ p
unfolding read_lines
read_lines-before num [] p h = refl
read_lines-before num (l ∷ ls) p h =
    ap (read_lines (num + 1) ls) (read_next-before num l p (omega arith))
    ∙ read_lines-before (num + 1) ls p (omega arith)

read_lines-behind :
    (num : ℕ) (ls : List Text) (p : InitParser) → p.end_pos ≤ num + 1 → read_lines num ls p ≡ p
unfolding read_lines
read_lines-behind num [] p h = refl
read_lines-behind num (l ∷ ls) p h =
    ap (read_lines (num + 1) ls) (read_next-behind num l p h)
    ∙ read_lines-behind (num + 1) ls p (omega arith)

read_lines-within :
    (num : ℕ) (ls : List Text) (p : InitParser)
    → p.start_pos ≤ num
    → num + length ls < p.end_pos
    → read_lines num ls p ≡ record p { ini_container = assign_all ls p.ini_container }
unfolding read_lines
read_lines-within num [] p h k = refl
read_lines-within num (l ∷ ls) p h k =
    ap (read_lines (num + 1) ls) (read_next-within num l p h (omega arith))
    ∙ read_lines-within (num + 1) ls (record p { ini_container = assignments [] l p.ini_container })
        (omega arith) (omega arith)

-- Where such a section ends the file, the number of the next tag is read past the end of the
-- vector.
pub read_line-last :
    (target : Text) (before : List Text) (h : Text) (body : List Text)
    → Section target before h body []
    → (read_line (some (file_of before h body [])) (new_parser target)).0 ≡ fault
unfolding read_line
read_line-last target before h body s =
    >>=-fault (find_line (some (file_of before h body [])))
      (λ _. read_file (some (file_of before h body []))) (new_parser target)
      (ap (λ q. q.0)
        (find_line-Section target before h body [] s
          ∙ find_end-none (length before + 1 + length (body ++ [])) (scanned target before body [])
              (next_tag before [])))

-- The lines of the section are those that are read.
read_lines-Section :
    (before : List Text) (h : Text) (body behind : List Text) (p : InitParser)
    → p.start_pos ≡ length before + 1
    → p.end_pos ≡ length before + 1 + length body + 1
    → read_lines 0 (file_of before h body behind) p
      ≡ record p { ini_container = assign_all body p.ini_container }
unfolding read_lines
read_lines-Section before h body behind p start end =
    let b = length before in
    let q : InitParser = record p { ini_container = assign_all body p.ini_container } in
    read_lines-append 0 before (h ∷ (body ++ behind)) p
    ∙ ap (read_lines (0 + b) (h ∷ (body ++ behind)))
        (read_lines-before 0 before p (omega (arith, start)))
    ∙ ap (λ n. read_lines n (h ∷ (body ++ behind)) p) (zero_plus b)
    ∙ ap (read_lines (b + 1) (body ++ behind)) (read_next-before b h p (omega (arith, start)))
    ∙ read_lines-append (b + 1) body behind p
    ∙ ap (read_lines (b + 1 + length body) behind)
        (read_lines-within (b + 1) body p (omega (arith, start)) (omega (arith, end)))
    ∙ read_lines-behind (b + 1 + length body) behind q (omega (arith, end))

-- A section whose head is a tag and the only line of the file that names it, whose lines are no
-- tags, and with another tag behind it, is read as a whole, and nothing but it: the settings are
-- the assignments of its lines, a later one over an earlier one.
pub read_line-Section :
    (target : Text) (before : List Text) (h : Text) (body : List Text) (next : Text)
    (rest : List Text)
    → Section target before h body (next ∷ rest)
    → is_tag next ≡ true
    → let result = read_line (some (file_of before h body (next ∷ rest))) (new_parser target) in
      (result.0 ≡ ok tt) × (result.1.ini_container ≡ assign_all body [])
unfolding read_line read_file
read_line-Section target before h body next rest s tag =
    let b = length before in
    let file = file_of before h body (next ∷ rest) in
    let p1 : InitParser = scanned target before body (next ∷ rest) in
    let p2 : InitParser = record p1 { end_pos = b + 1 + length body + 1 } in
    let found : find_line (some file) (new_parser target) ≡ (ok tt, p2) =
      find_line-Section target before h body (next ∷ rest) s
      ∙ find_end-some (b + 1 + length (body ++ next ∷ rest)) (b + 1 + length body) p1 (
          next_tag before (tags (b + 1 + length body) (next ∷ rest))
          ∙ ap
              (λ z.
                get_elem?
                  (if z
                    then (b + 1 + length body + 1) ∷ tags (b + 1 + length body + 1) rest
                    else tags (b + 1 + length body + 1) rest)
                  0)
              tag) in
    let whole : read_line (some file) (new_parser target)
        ≡ (ok tt, record p2 { ini_container = assign_all body [] }) =
      >>=-ok (find_line (some file)) (λ _. read_file (some file)) (new_parser target) p2 tt found
      ∙ ap (λ q. (ok tt, q)) (read_lines-Section before h body (next ∷ rest) p2 refl refl) in
    (ap (λ q. q.0) whole, ap (λ q. q.1.ini_container) whole)
