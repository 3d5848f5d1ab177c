-- ===== src/Trader/Holdings.antt =====
-- Where the orders of a trader are between two rounds of its threads: in the raw books, or in the list
-- of the reports (src/InertiaTrader/trader.cpp).
pub mod Quiet
pub mod Changes
pub mod Trading
pub mod Reporting
pub mod Booking
pub mod Lifecycle
use inertia_trader.Common.{ℕ, ◌+◌, List, refl}
use inertia_trader.Common.Action.{Action, ok, fault, throws}
use inertia_trader.Common.Action.Post.{Keeps}
use inertia_trader.Server.{Server}
use inertia_trader.Trader.Books.Sorted.{count}
use inertia_trader.Trader.{Order, Trader, on_server, put_order}

pub record Holdings : Type 0 where
  pub buys : List ℕ
  pub sells : List ℕ
  pub reports : List ℕ

-- How often an address is held.
abbrev pub total : ℕ → Holdings → ℕ
total c h = count c h.buys + count c h.sells + count c h.reports

module _ {N : Type 0} where
  abbrev pub holdings : Trader N → Holdings
  holdings t = record { buys = t.raw_buyside; sells = t.raw_sellside; reports = t.report_list }

  pub Keeps-on_server : {A : Type 0} (m : Action (Server N) A) → Keeps holdings (on_server m)
  unfolding Keeps
  Keeps-on_server m t = refl

  pub Keeps-put_order : (a : ℕ) (o : Order N) → Keeps holdings (put_order a o)
  unfolding Keeps
  Keeps-put_order a o t = refl
