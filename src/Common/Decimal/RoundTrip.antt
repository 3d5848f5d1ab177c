-- ===== src/Common/Decimal/RoundTrip.antt =====
-- `std::to_string` and then `std::stoi`, for every `int`, and what `std::to_string` writes of a number below
-- a hundred.
use Prim.Native.Nat.{ℕ, zero, suc, ◌+◌, ◌/◌, ◌%◌, ◌^◌, ◌<◌, ◌≤◌}
use mathlib.Core.Path.{◌≡◌, refl, ◌∙◌}
use mathlib.Core.Logic.{◌≢◌, inl, inr}
use mathlib.Core.Bool.{true, false}
use mathlib.Core.Option.{some}
use mathlib.Core.List.{[], ◌∷◌}
use native.Mathlib.Omega.{arith}
use inertia_trader.Common.Tests.{◌==◌, ==_iff, Bool-cases}
use inertia_trader.Common.Texts.{Text}
use inertia_trader.Common.Lists.{All}
use inertia_trader.Common.Int.{ℤ, pos, negsuc}
use inertia_trader.Common.Decimal.{
  is_digit, digits, nat_to_string, int_to_string, scan, scan_number, in_range, stoi,
}

abbrev StartsDigit : Text → Type 0
StartsDigit [] = ⊥
StartsDigit (c ∷ s) = is_digit c ≡ true

last_digit : (n : ℕ) → is_digit (b'0' + n % 10) ≡ true
unfolding is_digit
last_digit n = ground arith

scan-digit : (n : ℕ) (out : Text) → scan ((b'0' + n % 10) ∷ out) (n / 10) ≡ scan out n
unfolding scan
scan-digit n out = ground arith

scan-digits : (f n : ℕ) (out : Text) → n < f → scan (digits f n out) 0 ≡ scan out n
unfolding digits
scan-digits zero n out h = elim h [ ]
scan-digits (suc f) n out h =
    ground (arith, scan-digits f (n / 10) ((b'0' + n % 10) ∷ out), scan-digit n out)

digits-StartsDigit : (f n : ℕ) (out : Text) → StartsDigit out → StartsDigit (digits f n out)
unfolding digits
digits-StartsDigit zero n out h = h
digits-StartsDigit (suc f) n out h = elim (Bool-cases (n == 0)) [
  | inl e ↦ rw e h
  | inr e ↦ rw e (digits-StartsDigit f (n / 10) ((b'0' + n % 10) ∷ out) (last_digit n))
]

nat_to_string-StartsDigit : (n : ℕ) → StartsDigit (nat_to_string n)
unfolding nat_to_string
nat_to_string-StartsDigit n = elim (Bool-cases (n == 0)) [
  | inl e ↦ rw e (last_digit 0)
  | inr e ↦ rw e (digits-StartsDigit n (n / 10) ((b'0' + n % 10) ∷ []) (last_digit n))
]

scan-nat_to_string : (n : ℕ) → scan (nat_to_string n) 0 ≡ n
unfolding nat_to_string scan
scan-nat_to_string n = elim (Bool-cases (n == 0)) [
  | inl e ↦ rw e (omega (arith, (==_iff n 0).0 e))
  | inr e ↦ rw e (scan-digits n (n / 10) ((b'0' + n % 10) ∷ []) (ground arith) ∙ scan-digit n [])
]

scan_number-StartsDigit : (s : Text) → StartsDigit s → scan_number s ≡ some (scan s 0)
unfolding scan_number
scan_number-StartsDigit [] h = absurd h
scan_number-StartsDigit (c ∷ s) h = ground arith

-- No digit is a space or a sign.
stoi-StartsDigit : (s : Text) → StartsDigit s → stoi s ≡ in_range 32 false (scan s 0)
unfolding stoi
stoi-StartsDigit [] h = absurd h
stoi-StartsDigit (c ∷ s) h = ground (arith, scan_number-StartsDigit (c ∷ s) h)

stoi-minus : (s : Text) → StartsDigit s → stoi (b'-' ∷ s) ≡ in_range 32 true (scan s 0)
unfolding stoi
stoi-minus s h = ground (arith, scan_number-StartsDigit s h)

-- The integers of type `int`.
abbrev pub IsInt : ℤ → Type 0
IsInt (pos n) = n < 2 ^ 31
IsInt (negsuc n) = n < 2 ^ 31

-- Every `int` comes back from its decimal print.
pub stoi-int_to_string : (z : ℤ) → IsInt z → stoi (int_to_string z) ≡ some z
unfolding int_to_string in_range
stoi-int_to_string (pos n) h =
    stoi-StartsDigit (nat_to_string n) (nat_to_string-StartsDigit n)
    ∙ ground (arith, scan-nat_to_string n)
stoi-int_to_string (negsuc n) h =
    stoi-minus (nat_to_string (suc n)) (nat_to_string-StartsDigit (suc n))
    ∙ ground (arith, scan-nat_to_string (suc n))

module _ (P : ℕ → Type 0) (digit : (n : ℕ) → P (b'0' + n % 10)) where
  All-digits : (f n : ℕ) (out : Text) → All P out → All P (digits f n out)
  unfolding digits
  All-digits zero n out h = h
  All-digits (suc f) n out h = elim (Bool-cases (n == 0)) [
    | inl e ↦ rw e h
    | inr e ↦ rw e (All-digits f (n / 10) ((b'0' + n % 10) ∷ out) (digit n, h))
  ]

  All-nat_to_string : (n : ℕ) → All P (nat_to_string n)
  unfolding nat_to_string
  All-nat_to_string n = elim (Bool-cases (n == 0)) [
    | inl e ↦ rw e (digit 0, tt)
    | inr e ↦ rw e (All-digits n (n / 10) ((b'0' + n % 10) ∷ []) (digit n, tt))
  ]

  -- Every character of a printed number is a digit or the minus sign.
  pub All-int_to_string : (z : ℤ) → P b'-' → All P (int_to_string z)
  unfolding int_to_string
  All-int_to_string (pos n) minus = All-nat_to_string n
  All-int_to_string (negsuc n) minus = (minus, All-nat_to_string (suc n))

pub int_to_string-ne-nil : (z : ℤ) → int_to_string z ≢ []
unfolding int_to_string
int_to_string-ne-nil (pos n) e = ground (arith, nat_to_string-StartsDigit n)
int_to_string-ne-nil (negsuc n) e = cc

-- The digits of a number below a hundred.
abbrev pub two_digits : ℕ → Text
two_digits n = (b'0' + n / 10) ∷ (b'0' + n % 10) ∷ []

pub nat_to_string-one_digit : (n : ℕ) → n < 10 → nat_to_string n ≡ (b'0' + n) ∷ []
unfolding nat_to_string digits
nat_to_string-one_digit zero h = refl
nat_to_string-one_digit (suc n) h = ground arith

pub nat_to_string-two_digits : (n : ℕ) → 10 ≤ n → n < 100 → nat_to_string n ≡ two_digits n
unfolding nat_to_string digits
nat_to_string-two_digits zero l h = absurd (omega arith)
nat_to_string-two_digits (suc zero) l h = absurd (omega arith)
nat_to_string-two_digits (suc (suc n)) l h = ground arith
