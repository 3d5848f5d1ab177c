-- ===== src/Common/Decimal.antt =====
-- `std::to_string` of an integer, `std::stoi` and `std::stol`.
pub mod RoundTrip
use Prim.Native.Nat.{ℕ, zero, suc, ◌+◌, ◌-◌, ◌*◌, ◌/◌, ◌%◌, ◌^◌, ◌≤◌, ◌<◌}
use mathlib.Core.Path.{◌≡◌, refl}
use mathlib.Core.Bool.{Bool, true, false, ◌&&◌, ◌||◌}
use mathlib.Core.Option.{Option, none, some}
use mathlib.Core.List.{List, [], ◌∷◌}
use native.Mathlib.Omega.{arith}
use inertia_trader.Common.Tests.{ltb, leb, ◌==◌, if◌then◌else◌, Bool-cases}
use inertia_trader.Common.Texts.{Text, codes}
use inertia_trader.Common.Lists.{All}
use inertia_trader.Common.Int.{ℤ, pos, negsuc}

pub is_digit : ℕ → Bool
is_digit c = leb b'0' c && leb c b'9'

-- The decimal digits of `n` in front of `out`; the fuel is above `n`, so it does not run out.
pub digits : ℕ → ℕ → Text → Text
digits zero n out = out
digits (suc f) n out =
    let rest = digits f (n / 10) ((b'0' + n % 10) ∷ out) in if n == 0 then out else rest

unfoldable pub nat_to_string : ℕ → Text
unfolding digits
nat_to_string n = if n == 0 then b'0' ∷ [] else digits (suc n) n []

unfoldable pub int_to_string : ℤ → Text
unfolding nat_to_string
int_to_string (pos n) = nat_to_string n
int_to_string (negsuc n) = b'-' ∷ nat_to_string (suc n)

-- The number that the leading digits spell behind `n`.
pub scan : Text → ℕ → ℕ
unfolding is_digit
scan [] n = n
scan (c ∷ s) n = if is_digit c then scan s (n * 10 + (c - b'0')) else n

-- One digit at least, or `std::invalid_argument`.
pub scan_number : Text → Option ℕ
unfolding scan is_digit
scan_number [] = none
scan_number (c ∷ s) = if is_digit c then some (scan (c ∷ s) 0) else none

is_space : ℕ → Bool
is_space c = c == b' ' || (leb 9 c && leb c 13)

skip_spaces : Text → Text
unfolding is_space
skip_spaces [] = []
skip_spaces (c ∷ s) = let rest = skip_spaces s in if is_space c then rest else c ∷ s

negate : ℕ → ℤ
negate zero = pos 0
negate (suc n) = negsuc n

-- `none` is `std::invalid_argument` or `std::out_of_range`.
in_range : ℕ → Bool → ℕ → Option ℤ
unfolding negate
in_range width minus n =
    if minus
    then if leb n (2 ^ (width - 1)) then some (negate n) else none
    else if ltb n (2 ^ (width - 1))
    then some (pos n)
    else none

signed : ℕ → Bool → Option ℕ → Option ℤ
unfolding in_range
signed width minus none = none
signed width minus (some n) = in_range width minus n

after_sign : ℕ → Text → Option ℤ
unfolding signed scan_number
after_sign width [] = none
after_sign width (c ∷ s) =
    if c == b'-'
    then signed width true (scan_number s)
    else if c == b'+'
    then signed width false (scan_number s)
    else signed width false (scan_number (c ∷ s))

unfoldable pub stoi : Text → Option ℤ
unfolding after_sign skip_spaces
stoi s = after_sign 32 (skip_spaces s)

unfoldable pub stol : Text → Option ℤ
unfolding after_sign skip_spaces
stol s = after_sign 64 (skip_spaces s)

stoi_price : stoi (codes "60.5") ≡ some (pos 60)
unfolding stoi
stoi_price = refl

stoi_negative : stoi (codes " -12") ≡ some (negsuc 11)
unfolding stoi
stoi_negative = refl

stoi_empty : stoi (codes "KKC") ≡ none
unfolding stoi
stoi_empty = refl
