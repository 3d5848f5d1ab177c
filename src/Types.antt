-- ===== src/Types.antt =====
-- The shared data: src/InertiaTrader/enumStorage.h, src/InertiaTrader/tableObject.h and
-- src/Database/table.h. A price is of the type `N` that stands for `double`. A member that the code
-- may read before it is set is an `Option`.
use inertia_trader.Common.{Text}
use inertia_trader.Common.Int.{ℤ}

pub data OrderType : Type 0 where
  rod ioc fok none : OrderType

pub data Market : Type 0 where
  after_hour trade_hour none : Market

pub data Side : Type 0 where
  buy sell none : Side

pub data OrderStatus : Type 0 where
  verified failed none : OrderStatus

pub data OrderSituation : Type 0 where
  normal execute cancel none : OrderSituation

pub data ReportType : Type 0 where
  order_report execution_report error_report none : ReportType

pub record Stock (N : Type 0) : Type 0 where
  pub price_now : N
  pub price_max : N
  pub price_min : N

pub record OrderData (N : Type 0) : Type 0 where
  pub nid : Text
  pub order_price : N
  pub symbol : Text
  pub user_id : Text
  pub side : ℤ
  pub client_serialnum : ℤ

pub record UserData (N : Type 0) : Type 0 where
  pub user_id : Text
  pub password : Text
  pub balance : N
  pub book_value : N
