-- ===== src/Funclib/InitParser/Scan.antt =====
-- The first loop of `findLine`, and the end of the section that it finds.
use inertia_trader.Common.{
  ℕ, suc, ◌+◌, ◌<◌, ◌≡◌, refl, sym, ap, ◌∙◌, true, false, none, some, List, [], ◌∷◌, ◌++◌, Text,
  All, length, get_elem?, append_assoc, append-nil, All-append, All-imp, ◌==◌, if◌then◌else◌, arith,
  Bool-cases, inl, inr,
}
use inertia_trader.Common.Map.{text_key}
use inertia_trader.Common.Action.{ok, fault}
use inertia_trader.Funclib.InitParser.{
  InitParser, new_parser, is_tag, names_target, note_line, scan_lines, index_of, find_end,
  find_line,
}

-- A line that is not the head of the section, and one that is no tag either.
abbrev pub IsOther : Text → Text → Type 0
IsOther target l = names_target target l ≡ false

abbrev pub IsPlain : Text → Text → Type 0
IsPlain target l = (is_tag l ≡ false) × (names_target target l ≡ false)

-- The numbers of the lines that are tags.
abbrev pub tags : ℕ → List Text → List ℕ
tags num [] = []
tags num (l ∷ ls) = let rest = tags (num + 1) ls in if is_tag l then (num + 1) ∷ rest else rest

plus_zero : (n : ℕ) → n ≡ n + 0
plus_zero n = omega arith

plus_suc : (n k : ℕ) → n + 1 + k ≡ n + suc k
plus_suc n k = omega arith

note_line-tag :
    (num : ℕ) (l : Text) (p : InitParser)
    → is_tag l ≡ true
    → IsOther p.target l
    → note_line num l p ≡ record p { tag_line_num = p.tag_line_num ++ num ∷ [] }
unfolding note_line
note_line-tag num l p tag other = ground arith

note_line-plain :
    (num : ℕ) (l : Text) (p : InitParser)
    → is_tag l ≡ false
    → IsOther p.target l
    → note_line num l p ≡ p
unfolding note_line
note_line-plain num l p plain other = ground arith

scan_lines-IsOther :
    (num : ℕ) (ls : List Text) (p : InitParser)
    → All (IsOther p.target) ls
    → scan_lines num ls p
      ≡ (num + length ls, record p { tag_line_num = p.tag_line_num ++ tags num ls })
unfolding scan_lines note_line
scan_lines-IsOther num [] p h =
    λ i. (plus_zero num i, record p { tag_line_num = sym (append-nil p.tag_line_num) i })
scan_lines-IsOther num (l ∷ ls) p (o, h) = elim (Bool-cases (is_tag l)) [
  | inl tag ↦
      ap (scan_lines (num + 1) ls) (note_line-tag (num + 1) l p tag o)
      ∙ scan_lines-IsOther (num + 1) ls
          (record p { tag_line_num = p.tag_line_num ++ (num + 1) ∷ [] }) h
      ∙ rw tag (λ i. (
        plus_suc num (length ls) i,
        record p {
          tag_line_num = append_assoc p.tag_line_num ((num + 1) ∷ []) (tags (num + 1) ls) i;
        },
      ))
  | inr plain ↦
      ap (scan_lines (num + 1) ls) (note_line-plain (num + 1) l p plain o)
      ∙ scan_lines-IsOther (num + 1) ls p h
      ∙ rw plain (λ i. (
        plus_suc num (length ls) i,
        record p { tag_line_num = p.tag_line_num ++ tags (num + 1) ls },
      ))
]

scan_lines-append :
    (num : ℕ) (xs ys : List Text) (p : InitParser)
    → scan_lines num (xs ++ ys) p ≡ (let (n, q) = scan_lines num xs p in scan_lines n ys q)
unfolding scan_lines
scan_lines-append num [] ys p = refl
scan_lines-append num (x ∷ xs) ys p = scan_lines-append (num + 1) xs ys (note_line (num + 1) x p)

skip_first : (n m : ℕ) (ms : List ℕ) → m < n → index_of n (m ∷ ms) ≡ suc (index_of n ms)
unfolding index_of
skip_first n m ms h = ground arith

index_of-append :
    (num : ℕ) (ls : List Text) (n : ℕ) (rest : List ℕ)
    → num + length ls < n
    → index_of n (tags num ls ++ n ∷ rest) ≡ length (tags num ls)
unfolding index_of
index_of-append num [] n rest h = ground arith
index_of-append num (l ∷ ls) n rest h = elim (Bool-cases (is_tag l)) [
  | inl tag ↦ rw tag (
      skip_first n (num + 1) (tags (num + 1) ls ++ n ∷ rest) (omega arith)
      ∙ ap suc (index_of-append (num + 1) ls n rest (omega arith)))
  | inr plain ↦ rw plain (index_of-append (num + 1) ls n rest (omega arith))
]

tags-IsPlain :
    (target : Text) (num : ℕ) (ls : List Text) → All (IsPlain target) ls → tags num ls ≡ []
tags-IsPlain target num [] h = refl
tags-IsPlain target num (l ∷ ls) ((plain, o), h) = rw plain (tags-IsPlain target (num + 1) ls h)

tags-append :
    (num : ℕ) (xs ys : List Text) → tags num (xs ++ ys) ≡ tags num xs ++ tags (num + length xs) ys
tags-append num [] ys = ap (λ n. tags n ys) (omega arith)
tags-append num (x ∷ xs) ys = elim (Bool-cases (is_tag x)) [
  | inl tag ↦ rw tag (
      ap (◌∷◌ (num + 1)) (
        tags-append (num + 1) xs ys
        ∙ ap (λ n. tags (num + 1) xs ++ tags n ys) (plus_suc num (length xs))))
  | inr plain ↦ rw plain (
      tags-append (num + 1) xs ys
      ∙ ap (λ n. tags (num + 1) xs ++ tags n ys) (plus_suc num (length xs)))
]

-- A file with a section: its head is a tag and names it, no other line names it, and its lines are no
-- tags. `behind` is the rest, which starts with the next tag, if there is one.
pub record Section (target : Text) (before : List Text) (h : Text) (body behind : List Text)
    : Type 0 where
  pub others_before : All (IsOther target) before
  pub head_tag : is_tag h ≡ true
  pub head_names : names_target target h ≡ true
  pub body_plain : All (IsPlain target) body
  pub others_behind : All (IsOther target) behind

abbrev pub file_of : List Text → Text → List Text → List Text → List Text
file_of before h body behind = before ++ h ∷ (body ++ behind)

abbrev parser_at : Text → List ℕ → ℕ → ℕ → InitParser
parser_at target lines start end = record {
  ini_container = [];
  tag_line_num = lines;
  start_pos = start;
  end_pos = end;
  target = target;
}

note_line-head :
    (num : ℕ) (l : Text) (p : InitParser)
    → is_tag l ≡ true
    → names_target p.target l ≡ true
    → note_line num l p ≡ record p { tag_line_num = p.tag_line_num ++ num ∷ []; start_pos = num }
unfolding note_line
note_line-head num l p tag hit = ground arith

-- The parser behind the first loop.
abbrev pub scanned : Text → List Text → List Text → List Text → InitParser
scanned target before body behind =
    parser_at target
      (tags 0 before ++ (length before + 1) ∷ tags (length before + 1 + length body) behind)
      (length before + 1) 0

not_zero : (n : ℕ) → (n + 1 == 0) ≡ false
not_zero n = ground arith

pub zero_plus : (n : ℕ) → 0 + n ≡ n
zero_plus n = omega arith

get_elem?-behind :
    (xs : List ℕ) (x : ℕ) (ys : List ℕ)
    → get_elem? (xs ++ x ∷ ys) (suc (length xs)) ≡ get_elem? ys 0
get_elem?-behind [] x ys = refl
get_elem?-behind (a ∷ xs) x ys = get_elem?-behind xs x ys

scan_lines-Section :
    (target : Text) (before : List Text) (h : Text) (body behind : List Text)
    → Section target before h body behind
    → scan_lines 0 (file_of before h body behind) (new_parser target)
      ≡ (length before + 1 + length (body ++ behind), scanned target before body behind)
unfolding scan_lines new_parser
scan_lines-Section target before h body behind s =
    let b = length before in
    let rest = body ++ behind in
    let p0 : InitParser = parser_at target [] 0 0 in
    let p1 : InitParser = parser_at target (tags 0 before) 0 0 in
    let p2 : InitParser = parser_at target (tags 0 before ++ (b + 1) ∷ []) (b + 1) 0 in
    scan_lines-append 0 before (h ∷ rest) p0
    ∙ ap (λ q. scan_lines q.0 (h ∷ rest) q.1) (scan_lines-IsOther 0 before p0 s.others_before)
    ∙ ap (λ n. scan_lines n (h ∷ rest) p1) (zero_plus b)
    ∙ ap (scan_lines (b + 1) rest) (note_line-head (b + 1) h p1 s.head_tag s.head_names)
    ∙ scan_lines-IsOther (b + 1) rest p2 (
        All-append (IsOther target) body behind (All-imp body (λ l o. o.1) s.body_plain)
          s.others_behind)
    ∙ λ i. (
      b + 1 + length rest,
      parser_at target
          ((append_assoc (tags 0 before) ((b + 1) ∷ []) (tags (b + 1) rest)
              ∙ ap (λ ns. tags 0 before ++ (b + 1) ∷ ns)
                  (tags-append (b + 1) body behind
                    ∙ ap (λ ns. ns ++ tags (b + 1 + length body) behind)
                        (tags-IsPlain target (b + 1) body s.body_plain)))
            i)
          (b + 1) 0,
    )

-- The entry behind the head's is the number of the next tag.
pub next_tag :
    (before : List Text) (ns : List ℕ)
    → let b = length before in
      get_elem?
        (tags 0 before ++ (b + 1) ∷ ns)
        (suc (index_of (b + 1) (tags 0 before ++ (b + 1) ∷ ns)))
      ≡ get_elem? ns 0
next_tag before ns =
    ap (λ k. get_elem? (tags 0 before ++ (length before + 1) ∷ ns) (suc k))
      (index_of-append 0 before (length before + 1) ns (omega arith))
    ∙ get_elem?-behind (tags 0 before) (length before + 1) ns

pub find_line-Section :
    (target : Text) (before : List Text) (h : Text) (body behind : List Text)
    → Section target before h body behind
    → find_line (some (file_of before h body behind)) (new_parser target)
      ≡ find_end (length before + 1 + length (body ++ behind)) (scanned target before body behind)
unfolding find_line
find_line-Section target before h body behind s =
    ap (λ q. if q.1.start_pos == 0 then (ok tt, q.1) else find_end q.0 q.1)
      (scan_lines-Section target before h body behind s)
    ∙ ap
        (λ z.
          if z
          then (ok tt, scanned target before body behind)
          else find_end (length before + 1 + length (body ++ behind))
              (scanned target before body behind))
        (not_zero (length before))

pub find_end-none :
    (num : ℕ) (p : InitParser)
    → get_elem? p.tag_line_num (suc (index_of p.start_pos p.tag_line_num)) ≡ none
    → find_end num p ≡ (fault, p)
unfolding find_end
find_end-none num p e = rw (find_end, e) refl

pub find_end-some :
    (num next : ℕ) (p : InitParser)
    → get_elem? p.tag_line_num (suc (index_of p.start_pos p.tag_line_num)) ≡ some (next + 1)
    → find_end num p ≡ (ok tt, record p { end_pos = next + 1 })
unfolding find_end
find_end-some num next p e = rw (find_end, e, not_zero next) refl
