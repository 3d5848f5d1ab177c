-- ===== src/Examples.antt =====
-- A platform on which the code can be run, and states for the examples. A number is a count of tenths.
pub mod ServerRuns
pub mod TraderRuns
pub mod WireRuns
pub mod RoundRuns
pub mod IntegrityRuns
pub mod ClientRuns
use inertia_trader.Common.{
  ℕ, zero, suc, ◌+◌, ◌*◌, ◌/◌, ◌-◌, Bool, true, false, Option, none, some, List, [], ◌∷◌, ◌++◌, ◌≡◌,
  Text, codes, ltb, leb, arith,
}
use inertia_trader.Common.Int.{ℤ, pos}
use inertia_trader.Common.Floats.{Floats, FloatLaws}
use inertia_trader.Platform.{Platform}
use inertia_trader.Types.{Side, Stock, UserData}
use inertia_trader.Funclib.DataQueue.{DataQueue}
use inertia_trader.Connection.{Connection}
use inertia_trader.Server.{Server}
use inertia_trader.Trader.{Order, Trader, blank_order}
use inertia_trader.Trader.Nid.{NidSource}
use inertia_trader.Trader.Orders.{Request}

-- A text of digits, as that many whole numbers.
abbrev tenths_from : ℕ → Text → Option ℕ
tenths_from n [] = some (n * 10)
tenths_from n (c ∷ s) = tenths_from (n * 10 + (c - b'0')) s

abbrev pub tenths : Floats ℕ
tenths = record {
  lt = ltb;
  ge = λ a b. leb b a;
  mul = λ a b. a * b / 10;
  stod = tenths_from 0;
  to_string = λ n. codes "6";
  literal = λ n. n;
  lot = 10000;
  sixty = 600;
}

-- The database accepts every command, every send succeeds, and the third connection does too.
abbrev pub platform : Platform ℕ
platform = record {
  floats = tenths;
  accepts = λ h command. true;
  rows = λ h command. none;
  connects = λ n host user database. leb 2 n;
  delivers = λ wire socket text. true;
  rand = λ n. n + 3;
  unset_flag = λ n. false;
  right_to_left = true;
  foreign_end = false;
}

abbrev pub connection : Connection
connection = record {
  connection_socket = 5;
  connection_id = pos 3;
  recv_status = true;
  login_flag = false;
  username = codes "ann";
}

abbrev pub closed_connection : Connection
closed_connection = record connection { recv_status = false }

abbrev pub user : UserData ℕ
user = record { user_id = codes "ann"; password = codes "pw"; balance = 5000; book_value = 0 }

abbrev pub stock : Stock ℕ
stock = record { price_now = 600; price_max = 600; price_min = 600 }

abbrev pub queue : DataQueue
queue = record { limitation = 100; data_queue = codes "a" ∷ [] }

abbrev pub server : Server ℕ
server = record {
  conn_status = true;
  user_list = (codes "ann", user) ∷ [];
  quotes_list = (codes "KKC", some stock) ∷ [];
  dq = queue;
  dq_orderhandle = queue;
  conn_storage = (pos 3, some 0) ∷ [];
  conns = connection ∷ [];
  wire = [];
  history = [];
  db_status = true;
  draws = 0;
}

abbrev pub buy_order : Order ℕ
buy_order = record blank_order { nid = codes "7"; order_price = some 610; side = some Side.buy }

abbrev pub sell_order : Order ℕ
sell_order = record blank_order { nid = codes "8"; order_price = some 600; side = some Side.sell }

abbrev pub cheap_order : Order ℕ
cheap_order = record blank_order { nid = codes "9"; order_price = some 590; side = some Side.buy }

-- The newest order is the one at 1. The books hold the orders at 1 and 3, and the one at 2.
abbrev pub trader : Trader ℕ
trader = record {
  sr = server;
  orders = (1, buy_order) ∷ (2, sell_order) ∷ (3, cheap_order) ∷ [];
  od = some 1;
  product_list = codes "KKC" ∷ [];
  trade_basic_data = codes "a" ∷ codes "b" ∷ codes "60" ∷ [];
  buyside = 3 ∷ 1 ∷ [];
  sellside = 2 ∷ [];
  raw_buyside = 1 ∷ 3 ∷ [];
  raw_sellside = 2 ∷ [];
  report_list = [];
  nids = record { nid_sub1 = 4; nid_sub2 = 1 };
  side_flag = none;
  trader_status = true;
  server_status = false;
  testmode = false;
  db_status = true;
}

abbrev pub request : Request ℕ
request = record {
  nid = codes "7";
  price = 610;
  side_text = codes "1";
  side_number = pos 1;
  symbol = codes "KKC";
  conn = pos 3;
}
