-- ===== src/Trader/Risk/Band.antt =====
-- `RiskController::verify` beside the band of ten per cent around the price of the day.
use inertia_trader.Common.{
  ℕ, ◌+◌, ◌*◌, ◌^◌, ◌<◌, ◌≤◌, Bool, ◌||◌, Option, ◌≡◌, ◌↔◌, ◌⊎◌, true, false, not, ltb, refl, ◌∙◌,
  inl, inr, some, List, [], ◌∷◌, Text, text_eq_iff, arith, get_elem?,
}
use inertia_trader.Common.Floats.{Floats, DoubleLaws}
use inertia_trader.Common.Action.{ok}
use inertia_trader.Types.{OrderStatus}
use inertia_trader.Trader.Risk.{listed, refuses, verdict, verify, verify_text}

abbrev pub IsListed : Text → List Text → Type 0
IsListed symbol [] = ⊥
IsListed symbol (p ∷ ps) = (p ≡ symbol) ⊎ IsListed symbol ps

listed-IsListed : (symbol : Text) (ps : List Text) → (listed symbol ps ≡ true) ↔ IsListed symbol ps
unfolding listed
listed-IsListed symbol [] = ground arith
listed-IsListed symbol (p ∷ ps) = ground (arith, listed-IsListed symbol ps, text_eq_iff p symbol)

-- The price, in units of the same size as the basis, is clearly inside the band of ten per cent around it,
-- or clearly outside of it: by more than the rounding of `double`, which is one part in 2 ^ 50 and one
-- unit.
abbrev pub IsInside : ℕ → ℕ → Type 0
IsInside basis price =
    (10 * 2 ^ 50 * price + 11 * basis + 10 * 2 ^ 50 ≤ 2 ^ 50 * (11 * basis))
    × ((2 ^ 50 + 1) * (9 * basis) + 10 * 2 ^ 50 ≤ 10 * 2 ^ 50 * price)

abbrev pub IsOutside : ℕ → ℕ → Type 0
IsOutside basis price =
    ((2 ^ 50 + 1) * (11 * basis) + 10 * 2 ^ 50 < 10 * 2 ^ 50 * price)
    ⊎ (10 * 2 ^ 50 * price + 9 * basis + 10 * 2 ^ 50 < 2 ^ 50 * (9 * basis))

module _ {N : Type 0} (F : Floats N) (value : N → Option ℕ) (IsNan : N → Type 0)
    (rounds : DoubleLaws F value IsNan) (basis price : N) (b high low : ℕ)
    (has_basis : value basis ≡ some b) (has_high : value (F.mul basis (F.literal 11)) ≡ some high)
    (has_low : value (F.mul basis (F.literal 9)) ≡ some low) where
  -- The two comparisons of the check.
  off_band : Bool
  off_band = F.lt (F.mul basis (F.literal 11)) price || F.lt price (F.mul basis (F.literal 9))

  off_band-inside : (p : ℕ) → value price ≡ some p → IsInside b p → off_band ≡ false
  unfolding off_band
  off_band-inside p e inside =
      let above = rounds.lt_value (F.mul basis (F.literal 11)) price high p has_high e in
      let below = rounds.lt_value price (F.mul basis (F.literal 9)) p low e has_low in
      let high_ge = rounds.product_ge basis 11 b high (omega arith) has_basis has_high in
      let low_le = rounds.product_le basis 9 b low (omega arith) has_basis has_low in
      let not_above : ltb high p ≡ false = ground (arith, inside.0, high_ge) in
      let not_below : ltb p low ≡ false = ground (arith, inside.1, low_le) in
      rw (above ∙ not_above) (below ∙ not_below)

  off_band-outside : (p : ℕ) → value price ≡ some p → IsOutside b p → off_band ≡ true
  unfolding off_band
  off_band-outside p e (inl high_price) =
      let above = rounds.lt_value (F.mul basis (F.literal 11)) price high p has_high e in
      let high_le = rounds.product_le basis 11 b high (omega arith) has_basis has_high in
      let is_above : ltb high p ≡ true = ground (arith, high_price, high_le) in
      rw (above ∙ is_above) refl
  off_band-outside p e (inr low_price) =
      let below = rounds.lt_value price (F.mul basis (F.literal 9)) p low e has_low in
      let low_ge = rounds.product_ge basis 9 b low (omega arith) has_basis has_low in
      let is_below : ltb p low ≡ true = ground (arith, low_price, low_ge) in
      ground (arith, below ∙ is_below)

  off_band-nan : IsNan price → off_band ≡ false
  unfolding off_band
  off_band-nan nan =
      rw ((rounds.lt_nan (F.mul basis (F.literal 11)) price nan).0)
        (rounds.lt_nan (F.mul basis (F.literal 9)) price nan).1

  verify-off_band :
      (products basic_data : List Text) (symbol text : Text)
      → get_elem? basic_data 2 ≡ some text
      → F.stod text ≡ some basis
      → verify F products basic_data price symbol
        ≡ ok (verdict F (off_band || not (listed symbol products)))
  unfolding verify verify_text refuses off_band
  verify-off_band products basic_data symbol text has parsed = ground (arith, has, parsed)

  -- What the check should give an order: inside the band, outside of it, for a product that is not
  -- listed, or with a price that is NaN.
  pub data Judged (symbol : Text) (products : List Text) : OrderStatus → Type 0 where
    within :
        (p : ℕ)
        → value price ≡ some p
        → IsInside b p
        → IsListed symbol products
        → Judged symbol products OrderStatus.verified
    beyond :
        (p : ℕ) → value price ≡ some p → IsOutside b p → Judged symbol products OrderStatus.failed
    unlisted : ¬ IsListed symbol products → Judged symbol products OrderStatus.failed
    not_a_number :
        IsNan price → IsListed symbol products → Judged symbol products OrderStatus.verified

  -- With a price of the day that is a number and not negative, whose products with 1.1 and 0.9 are
  -- finite: an order of a listed product is verified if its price is inside the band of ten per cent,
  -- and failed if it is outside, up to the rounding; an order of another product is failed; and an
  -- order of a listed product whose price is NaN is verified.
  pub verify-Judged :
      (products basic_data : List Text) (symbol text : Text) (status : OrderStatus)
      → get_elem? basic_data 2 ≡ some text
      → F.stod text ≡ some basis
      → Judged symbol products status
      → verify F products basic_data price symbol ≡ ok status
  verify-Judged products basic_data symbol text _ has parsed (Judged.within p e inside there) =
      verify-off_band products basic_data symbol text has parsed ∙ λ i. ok (
        verdict F
          (off_band-inside p e inside i || not ((listed-IsListed symbol products).1 there i)))
  verify-Judged products basic_data symbol text _ has parsed (Judged.beyond p e outside) =
      verify-off_band products basic_data symbol text has parsed ∙ λ i.
      ok (verdict F (off_band-outside p e outside i || not (listed symbol products)))
  verify-Judged products basic_data symbol text _ has parsed (Judged.unlisted missing) = ground (
    arith,
    verify-off_band products basic_data symbol text has parsed,
    missing,
    listed-IsListed symbol products,
  )
  verify-Judged products basic_data symbol text _ has parsed (Judged.not_a_number nan there) =
      verify-off_band products basic_data symbol text has parsed ∙ λ i.
      ok (verdict F (off_band-nan nan i || not ((listed-IsListed symbol products).1 there i)))
