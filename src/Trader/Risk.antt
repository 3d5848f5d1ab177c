-- ===== src/Trader/Risk.antt =====
-- `RiskController::verify` and the composition of reports.
pub mod Band
use inertia_trader.Common.{
  ℕ, Bool, true, false, not, ◌||◌, Option, none, some, List, [], ◌∷◌, Text, codes, text_eq,
  get_elem?, if◌then◌else◌,
}
use inertia_trader.Common.Floats.{Floats}
use inertia_trader.Common.Action.{Outcome, ok, throws, fault}
use inertia_trader.Types.{OrderStatus, ReportType}

-- `std::find(productList.begin(), productList.end(), symbol) != productList.end()`
unfoldable pub listed : Text → List Text → Bool
listed symbol [] = false
listed symbol (p ∷ ps) = text_eq p symbol || listed symbol ps

module _ {N : Type 0} (F : Floats N) where
  -- Outside the band of ten per cent around the price of the day, or of an unknown product.
  unfoldable pub refuses : N → N → Text → List Text → Bool
  refuses basis price symbol products =
      F.lt (F.mul basis (F.literal 11)) price
      || (F.lt price (F.mul basis (F.literal 9)) || not (listed symbol products))

  abbrev pub verdict : Bool → OrderStatus
  verdict true = OrderStatus.failed
  verdict false = OrderStatus.verified

  unfoldable pub verify_text : Option Text → N → Text → List Text → Outcome OrderStatus
  verify_text none price symbol products = fault
  verify_text (some text) price symbol products = elim (F.stod text) [
    | none ↦ throws
    | some basis ↦ ok (verdict (refuses basis price symbol products))
  ]

  -- The status that `verify` gives an order of this price and symbol.
  unfoldable pub verify : List Text → List Text → N → Text → Outcome OrderStatus
  verify products basic_data price symbol =
      verify_text (get_elem? basic_data 2) price symbol products

-- `Report::composeReport`
unfoldable pub compose_report : ReportType → Text
compose_report ReportType.none = []
compose_report ReportType.order_report = codes "100|success"
compose_report ReportType.execution_report = codes "100|failed"
compose_report ReportType.error_report = codes "100|failed"
