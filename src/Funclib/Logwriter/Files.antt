-- ===== src/Funclib/Logwriter/Files.antt =====
-- The files that the log writers of different days write to.
use inertia_trader.Common.{
  ℕ, ◌+◌, ◌^◌, ◌<◌, ◌≡◌, refl, sym, ap, ◌∙◌, inl, inr, ltb, Bool-cases, [], some, ◌∷◌, ◌++◌, Text,
  codes, length, length-append, arith,
}
use inertia_trader.Common.Int.{pos}
use inertia_trader.Common.Decimal.{nat_to_string, int_to_string, stoi}
use inertia_trader.Common.Decimal.RoundTrip.{
  stoi-int_to_string, two_digits, nat_to_string-one_digit, nat_to_string-two_digits,
}
use inertia_trader.Funclib.Logwriter.{Tm, to_zero_lead, date, new_logwriter}

to_zero_lead-two_digits : (n : ℕ) → n < 100 → to_zero_lead n 2 ≡ two_digits n
unfolding to_zero_lead
to_zero_lead-two_digits n h = elim (Bool-cases (ltb n 10)) [
  | inl below ↦ rw (nat_to_string-one_digit n (ground arith)) (ground arith)
  | inr above ↦ rw (nat_to_string-two_digits n (ground arith) h) refl
]

two_digits-injective : (m n : ℕ) → two_digits m ≡ two_digits n → m ≡ n
two_digits-injective m n e = ground arith

append-cancel :
    (xs ys us vs : Text) → length us ≡ length vs → xs ++ us ≡ ys ++ vs → (xs ≡ ys) × (us ≡ vs)
append-cancel [] [] us vs l e = (refl, e)
append-cancel [] (y ∷ ys) us vs l e = absurd (omega (arith, ap length e, length-append (y ∷ ys) vs))
append-cancel (x ∷ xs) [] us vs l e = absurd (omega (arith, ap length e, length-append (x ∷ xs) us))
append-cancel (x ∷ xs) (y ∷ ys) us vs l e =
    let rest : xs ++ us ≡ ys ++ vs = cc in
    let (heads, tails) = append-cancel xs ys us vs l rest in (cc (heads), tails)

prefix-cancel : (p xs ys us : Text) → p ++ (xs ++ us) ≡ p ++ (ys ++ us) → xs ≡ ys
prefix-cancel [] xs ys us e = (append-cancel xs ys us us refl e).0
prefix-cancel (c ∷ p) xs ys us e = prefix-cancel p xs ys us (cc e)

-- The year is an `int`, and the month and the day have two digits, as `localtime` gives them.
pub record IsDate (now : Tm) : Type 0 where
  pub year : now.tm_year + 1900 < 2 ^ 31
  pub month : now.tm_mon < 12
  pub day : now.tm_mday < 32

nat_to_string-injective :
    (m n : ℕ) → m < 2 ^ 31 → n < 2 ^ 31 → nat_to_string m ≡ nat_to_string n → m ≡ n
unfolding int_to_string
nat_to_string-injective m n hm hn e =
    let same : some (pos m) ≡ some (pos n) =
      sym (stoi-int_to_string (pos m) hm) ∙ ap stoi e ∙ stoi-int_to_string (pos n) hn in
    cc same

-- The text behind the year.
abbrev rest_of_date : ℕ → ℕ → Text
rest_of_date mon mday = b'-' ∷ (two_digits mon ++ (b'-' ∷ two_digits mday))

date-IsDate :
    (now : Tm)
    → IsDate now
    → date now ≡ nat_to_string (now.tm_year + 1900) ++ rest_of_date (now.tm_mon + 1) now.tm_mday
unfolding date
date-IsDate now d =
    rw
      (
        to_zero_lead-two_digits (now.tm_mon + 1) (omega arith),
        to_zero_lead-two_digits now.tm_mday (omega arith),
      )
      refl

date-injective :
    (a b : Tm)
    → IsDate a
    → IsDate b
    → date a ≡ date b
    → (a.tm_year ≡ b.tm_year) × (a.tm_mon ≡ b.tm_mon) × (a.tm_mday ≡ b.tm_mday)
date-injective a b da db e =
    let (years, rests) =
      append-cancel (nat_to_string (a.tm_year + 1900)) (nat_to_string (b.tm_year + 1900))
        (rest_of_date (a.tm_mon + 1) a.tm_mday) (rest_of_date (b.tm_mon + 1) b.tm_mday) refl
        (sym (date-IsDate a da) ∙ e ∙ date-IsDate b db) in
    let year =
      nat_to_string-injective (a.tm_year + 1900) (b.tm_year + 1900) da.year db.year years in
    let months = two_digits-injective (a.tm_mon + 1) (b.tm_mon + 1) (cc rests) in
    let days = two_digits-injective a.tm_mday b.tm_mday (cc rests) in
    (omega (arith, year), omega (arith, months), days)

-- Two log writers with the same path that are made at two times, whose years are of type `int`, write
-- to the same file only if the times have the same year, month and day.
pub new_logwriter-file_path :
    (type_a type_b path : Text) (a b : Tm)
    → IsDate a
    → IsDate b
    → (new_logwriter type_a path a).file_path ≡ (new_logwriter type_b path b).file_path
    → (a.tm_year ≡ b.tm_year) × (a.tm_mon ≡ b.tm_mon) × (a.tm_mday ≡ b.tm_mday)
unfolding new_logwriter
new_logwriter-file_path type_a type_b path a b da db e =
    date-injective a b da db (prefix-cancel path (date a) (date b) (codes ".log") e)
