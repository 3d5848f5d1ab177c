-- ===== src/Trader/Members.antt =====
-- The member functions of `Order` one by one, and the class `Report`, which no other code uses. The
-- other files write out what these functions do.
use inertia_trader.Common.{◌≡◌, Bool, true, Option, none, some, Text}
use inertia_trader.Common.Int.{ℤ}
use inertia_trader.Common.Action.{Action, ok, fault, ◌>>=◌, pure, or_fault, gets, zoom}
use inertia_trader.Common.Action.Laws.{or_fault->>=}
use inertia_trader.Platform.{Platform}
use inertia_trader.Types.{Side, OrderStatus, OrderSituation, ReportType}
use inertia_trader.Trader.{Order}
use inertia_trader.Trader.Nid.{NidSource, generate_nid}
use inertia_trader.Trader.Risk.{compose_report}

module _ {N : Type 0} where
  unfoldable set_status : OrderStatus → Order N → Order N
  set_status status o = record o { status = some status }

  unfoldable set_situation : OrderSituation → Order N → Order N
  set_situation situation o = record o { situation = some situation }

  unfoldable set_side : Side → Order N → Order N
  set_side side o = record o { side = some side }

  -- A member that is read before it is set.
  unfoldable get_status : Action (Order N) OrderStatus
  get_status o = or_fault o.status o

  unfoldable get_situation : Action (Order N) OrderSituation
  get_situation o = or_fault o.situation o

  unfoldable get_side : Action (Order N) Side
  get_side o = or_fault o.side o

  -- `Order::operator<` with the order on its right; `a > b || a == b` is `a >= b`.
  unfoldable less : Platform N → Order N → Action (Order N) Bool
  less P p = do
    other ← or_fault p.order_price
    o ← gets (λ o. o)
    own ← or_fault o.order_price
    pure (P.ge other own)

  -- Two orders at the same price are each less than the other, so that `<` orders no set of them.
  less-both :
      (P : Platform N) (o p : Order N) (price : N)
      → o.order_price ≡ some price
      → p.order_price ≡ some price
      → P.ge price price ≡ true
      → (less P p o ≡ (ok true, o)) × (less P o p ≡ (ok true, p))
  unfolding less
  less-both P o p price eo ep same = (
    rw (less, or_fault->>= _ o ep, or_fault->>= _ o eo, same),
    rw (less, or_fault->>= _ p eo, or_fault->>= _ p ep, same),
  )

-- The members of `Report` that a function of it uses.
record Report : Type 0 where
  nids : NidSource
  report_type : Option ReportType

unfoldable set_report_type : ReportType → Report → Report
set_report_type rpt r = record r { report_type = some rpt }

-- `Report::generateNid`
unfoldable report_nid : Action Report ℤ
report_nid = zoom (λ r. r.nids) (λ n r. record r { nids = n }) generate_nid

-- `Report::composeReport`, by the type of the report
unfoldable composed : Action Report Text
composed r = elim r.report_type [ none ↦ (fault, r) | some rpt ↦ (ok (compose_report rpt), r) ]
