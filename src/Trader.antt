-- ===== src/Trader.antt =====
-- src/InertiaTrader/trader.{h,cpp}: the trader, its orders and their books. An order lies on a heap
-- under its address, which the allocator chooses. The log is left out.
pub mod Nid
pub mod Risk
pub mod Books
pub mod Orders
pub mod Changes
pub mod Matching
pub mod Reports
pub mod Startup
pub mod Threads
pub mod Holdings
pub mod Integrity
pub mod Members
use inertia_trader.Common.{
  ℕ, zero, suc, ◌+◌, Bool, true, false, Option, none, some, List, [], ◌∷◌, ◌++◌, Text, codes,
}
use inertia_trader.Common.Int.{ℤ, pos}
use inertia_trader.Common.Map.{Map, lookup, assign, nat_key}
use inertia_trader.Common.Action.{Action, Outcome, ok, fault, throws, or_fault, gets, modify, zoom}
use inertia_trader.Types.{Side, OrderStatus, OrderSituation}
use inertia_trader.Server.{Server}
use inertia_trader.Trader.Nid.{NidSource}

-- The members that a constructor sets have a value; the others are `none` until they are set.
pub record Order (N : Type 0) : Type 0 where
  pub nid : Text
  pub order_price : Option N
  pub exec_price : Option N
  pub symbol : Text
  pub user_id : Text
  pub client_serial_num : Option ℤ
  pub conn_id : Option ℤ
  pub side_number : Option ℤ
  pub side : Option Side
  pub status : Option OrderStatus
  pub situation : Option OrderSituation

abbrev pub blank_order : {N : Type 0} → Order N
blank_order = record {
  nid = [];
  order_price = none;
  exec_price = none;
  symbol = [];
  user_id = [];
  client_serial_num = none;
  conn_id = none;
  side_number = none;
  side = none;
  status = none;
  situation = none;
}

pub record Trader (N : Type 0) : Type 0 where
  pub sr : Server N
  pub orders : Map ℕ (Order N)
  -- the order that `getOrder` worked on last
  pub od : Option ℕ
  pub product_list : List Text
  pub trade_basic_data : List Text
  pub buyside : List ℕ
  pub sellside : List ℕ
  pub raw_buyside : List ℕ
  pub raw_sellside : List ℕ
  pub report_list : List ℕ
  pub nids : NidSource
  pub side_flag : Option Side
  pub trader_status : Bool
  pub server_status : Bool
  pub testmode : Bool
  pub db_status : Bool

module _ {N : Type 0} where
  abbrev pub on_server : {A : Type 0} → Action (Server N) A → Action (Trader N) A
  on_server = zoom (λ t. t.sr) (λ s t. record t { sr = s })

  -- the order behind a pointer
  abbrev pub order_at : ℕ → Action (Trader N) (Order N)
  order_at a t = or_fault (lookup a t.orders) t

  abbrev pub put_order : ℕ → Order N → Action (Trader N) (Unit {0})
  put_order a o = modify (λ t. record t { orders = assign a o t.orders })

  unfoldable pub set_trader_status : Bool → Trader N → Trader N
  set_trader_status status t = record t { trader_status = status }
