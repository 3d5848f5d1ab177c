-- ===== src/Trader/Nid/Unique.antt =====
-- The serial numbers of a run of `Trader::generateNid`.
use Prim.Native.Nat.{bit_or, digits, bit_or-bitwise, max}
use native.Mathlib.Nat.{pow-suc}
use inertia_trader.Common.{
  ℕ, zero, suc, ◌+◌, ◌*◌, ◌/◌, ◌%◌, ◌^◌, ◌≤◌, ◌<◌, ◌≡◌, refl, ◌∙◌, List, [], ◌∷◌, arith,
}
use inertia_trader.Common.Int.{ℤ, pos}
use inertia_trader.Common.Action.{Outcome, ok}
use inertia_trader.Trader.Nid.{NidSource, int_max, new_source, unsigned_key, generate_nid, to_long}

-- The digit recursion that `bit_or` stands for, with any fuel that is enough.
abbrev or_digits : ℕ → ℕ → ℕ → ℕ
or_digits n a b = digits (λ b. b) max n a b

or_digits_fuel : (n m a b : ℕ) → a ≤ n → a ≤ m → or_digits n a b ≡ or_digits m a b
or_digits_fuel zero zero a b p q = refl
or_digits_fuel zero (suc m) zero b p q = refl
or_digits_fuel zero (suc m) (suc a) b p q = absurd (omega arith)
or_digits_fuel (suc n) zero zero b p q = refl
or_digits_fuel (suc n) zero (suc a) b p q = absurd (omega arith)
or_digits_fuel (suc n) (suc m) zero b p q = refl
or_digits_fuel (suc n) (suc m) (suc a) b p q =
    omega (arith, or_digits_fuel n m (suc a / 2) (b / 2) (omega arith) (omega arith))

zero-bit_or : (b : ℕ) → bit_or 0 b ≡ b
zero-bit_or b = bit_or-bitwise 0 b

bit_or_step : (a b : ℕ) → bit_or a b ≡ bit_or (a / 2) (b / 2) * 2 + max (a % 2) (b % 2)
bit_or_step zero b = omega (arith, zero-bit_or b, zero-bit_or (b / 2))
bit_or_step (suc a) b = omega (
  arith,
  bit_or-bitwise (suc a) b,
  bit_or-bitwise (suc a / 2) (b / 2),
  or_digits_fuel a (suc a / 2) (suc a / 2) (b / 2) (omega arith) (omega arith),
)

bit_or-zero_fuel : (n a : ℕ) → a ≤ n → bit_or a 0 ≡ a
bit_or-zero_fuel n zero h = zero-bit_or 0
bit_or-zero_fuel zero (suc a) h = absurd (omega arith)
bit_or-zero_fuel (suc n) (suc a) h =
    omega (arith, bit_or_step (suc a) 0, bit_or-zero_fuel n (suc a / 2) (omega arith))

bit_or_double : (x b : ℕ) → bit_or x (b / 2) ≡ x + b / 2 → bit_or (x * 2) b ≡ x * 2 + b
bit_or_double x b h =
    let e : x * 2 / 2 ≡ x = omega arith in bit_or_step (x * 2) b ∙ rw (e, h) (omega arith)

double_pow : (k a : ℕ) → a * 2 ^ suc k ≡ a * 2 ^ k * 2
double_pow k a = rw pow-suc (omega arith)

-- Two numbers with no bit in common: `|` is the sum.
bit_or-pow : (k a b : ℕ) → b < 2 ^ k → bit_or (a * 2 ^ k) b ≡ a * 2 ^ k + b
bit_or-pow zero a zero h = bit_or-zero_fuel (a * 1) (a * 1) (omega arith) ∙ omega arith
bit_or-pow zero a (suc b) h = absurd (omega arith)
bit_or-pow (suc k) a b h =
    let h' : b < 2 ^ k * 2 = rw pow-suc at h in
    rw (double_pow k a) (bit_or_double (a * 2 ^ k) b (bit_or-pow k a (b / 2) (omega arith)))

-- A generator whose halves are in the range of their types.
pub record IsSource (n : NidSource) : Type 0 where
  pub high : n.nid_sub1 < int_max
  pub low : n.nid_sub2 ≤ int_max

new_source-IsSource : (random : ℕ) → IsSource (new_source random)
unfolding new_source
new_source-IsSource random = record { high = omega arith; low = omega arith }

unsigned_key-eq : (n : NidSource) → IsSource n → unsigned_key n ≡ n.nid_sub1 * 2 ^ 32 + n.nid_sub2
unfolding unsigned_key
unsigned_key-eq n v =
    let e : n.nid_sub1 * 2 ^ 32 % 2 ^ 64 ≡ n.nid_sub1 * 2 ^ 32 = omega arith in
    rw e (bit_or-pow 32 n.nid_sub1 n.nid_sub2 (omega arith))

-- Each call gives the two halves side by side, a positive `long`, and moves on by one.
pub generate_nid-eq :
    (n : NidSource)
    → IsSource n
    → n.nid_sub2 < int_max
    → let next = record n { nid_sub2 = n.nid_sub2 + 1 } in
      (generate_nid n ≡ (ok (pos (n.nid_sub1 * 2 ^ 32 + n.nid_sub2)), next)) × IsSource next
unfolding generate_nid to_long
generate_nid-eq n v h =
    (ground (arith, unsigned_key-eq n v), record { high = v.high; low = omega arith })

-- The keys of the first calls.
abbrev pub keys : ℕ → NidSource → List (Outcome ℤ)
keys zero n = []
keys (suc k) n = (generate_nid n).0 ∷ keys k (generate_nid n).1

-- All of them are keys, above a bound and with no repetition.
abbrev pub Ascends : ℕ → List (Outcome ℤ) → Type 0
Ascends bound [] = Unit
Ascends bound (r ∷ rs) = (m : ℕ) × (r ≡ ok (pos m)) × (bound < m) × (m < 2 ^ 63) × Ascends m rs

keys-Ascends_from :
    (k : ℕ) (n : NidSource) (bound : ℕ)
    → IsSource n
    → n.nid_sub2 + k ≤ int_max
    → bound < n.nid_sub1 * 2 ^ 32 + n.nid_sub2
    → Ascends bound (keys k n)
keys-Ascends_from zero n bound v h b = tt
keys-Ascends_from (suc k) n bound v h b =
    let m = n.nid_sub1 * 2 ^ 32 + n.nid_sub2 in
    let next = record n { nid_sub2 = n.nid_sub2 + 1 } in
    let (e, v') = generate_nid-eq n v (omega arith) in
    rw e
      (m, refl, b, omega (arith, v.high), keys-Ascends_from k next m v' (omega arith) (omega arith))

-- As long as the counter does not reach the greatest `int`, every call succeeds, and each key is a
-- positive `long` that is greater than the one before it.
pub keys-Ascends : (k random : ℕ) → k < int_max → Ascends 0 (keys k (new_source random))
unfolding new_source
keys-Ascends k random h =
    keys-Ascends_from k (new_source random) 0 (new_source-IsSource random) (omega arith)
      (omega arith)
