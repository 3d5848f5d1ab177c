-- ===== src/Trader/Orders.antt =====
-- `Trader::getOrder`: one message of the order queue.
pub mod Outcomes
pub mod Placement
pub mod Accepted
pub mod Sender
pub mod Replies
pub mod Client
use inertia_trader.Common.{
  ℕ, ◌+◌, Bool, true, false, Option, none, some, List, [], ◌∷◌, ◌++◌, Text, codes, text_eq,
  get_elem?, if◌then◌else◌, ltb,
}
use inertia_trader.Common.Int.{ℤ, pos, int_eq}
use inertia_trader.Common.Decimal.{stoi}
use inertia_trader.Common.Map.{lookup, assign, nat_key, text_key}
use inertia_trader.Common.Action.{
  Action, Outcome, ok, fault, throws, ◌>>=◌, ◌>>◌, pure, or_fault, or_throw, gets, modify, zoom,
}
use inertia_trader.Platform.{Platform}
use inertia_trader.Types.{Side, OrderStatus, OrderSituation, OrderData, UserData}
use inertia_trader.Funclib.Split.{split, bar}
use inertia_trader.Funclib.DataQueue.{pop_dta, check_space}
use inertia_trader.Connection.{Connection}
use inertia_trader.Server.{
  Server, send_to_client, get_conn_object, insert_order_to_db, connection_at,
}
use inertia_trader.Trader.{Order, Trader, blank_order, on_server, put_order}
use inertia_trader.Trader.Nid.{generate_nid}
use inertia_trader.Trader.Risk.{verify}
use inertia_trader.Trader.Books.{order_data_insert}

abbrev pub side_of_text : Text → Side
side_of_text s = if text_eq s (codes "1") then Side.buy else Side.sell

-- `Side(n)`: another number is a value of the enumeration with no name, as `none` is here.
abbrev pub side_of_int : ℤ → Side
side_of_int n =
    if int_eq n (pos 1) then Side.buy else if int_eq n (pos 2) then Side.sell else Side.none

-- `static_cast<int>(side)`
abbrev int_of_side : Side → ℤ
int_of_side Side.buy = pos 1
int_of_side Side.sell = pos 2
int_of_side Side.none = pos 0

-- The fields of a message, read in the order of the code.
pub record Request (N : Type 0) : Type 0 where
  pub nid : Text
  pub price : N
  pub side_text : Text
  pub side_number : ℤ
  pub symbol : Text
  pub conn : ℤ

-- The user id of every order is this constant.
abbrev default_user : Text
default_user = codes "0324027"

module _ {N : Type 0} where
  abbrev pub order_of : Request N → Order N
  order_of r = record blank_order {
    nid = r.nid;
    order_price = some r.price;
    symbol = r.symbol;
    user_id = default_user;
    conn_id = some r.conn;
    side_number = some r.side_number;
    side = some (side_of_text r.side_text);
    situation = some OrderSituation.normal;
  }

  abbrev pub data_of : Request N → ℤ → OrderData N
  data_of r serial = record {
    nid = r.nid;
    order_price = r.price;
    symbol = r.symbol;
    user_id = default_user;
    side = int_of_side (side_of_text r.side_text);
    client_serialnum = serial;
  }

  -- The balance of the user of the connection: a null pointer and an unlisted user are undefined.
  unfoldable pub balance_of : ℤ → Action (Server N) N
  balance_of conn = do
    p ← get_conn_object conn
    a ← or_fault p
    cn ← connection_at a
    s ← gets (λ s. s)
    ud ← or_fault (lookup cn.username s.user_list)
    pure ud.balance

module _ {N : Type 0} (P : Platform N) where
  unfoldable pub read_request : List Text → Action (Trader N) (Request N)
  read_request res = do
    nid ← or_fault (get_elem? res 1)
    price_text ← or_fault (get_elem? res 2)
    price ← or_throw (P.stod price_text)
    side_text ← or_fault (get_elem? res 3)
    side_number ← or_throw (stoi side_text)
    symbol ← or_fault (get_elem? res 6)
    conn_text ← or_fault (get_elem? res 7)
    conn ← or_throw (stoi conn_text)
    pure (record {
      nid = nid;
      price = price;
      side_text = side_text;
      side_number = side_number;
      symbol = symbol;
      conn = conn;
    })

  abbrev pub answer : Request N → Text → Action (Trader N) (Unit {0})
  answer r text = on_server (send_to_client P r.conn (r.nid ++ text))

  -- An order that is verified and covered: it enters the book, and then the database.
  unfoldable pub place_order : ℕ → Order N → Request N → Action (Trader N) (Unit {0})
  place_order at o r = do
    serial ← zoom (λ t. t.nids) (λ n t. record t { nids = n }) generate_nid
    put_order at (record o { client_serial_num = some serial })
    modify (λ t. record t { side_flag = some (side_of_int r.side_number) })
    order_data_insert at o
    stored ← on_server (insert_order_to_db P (data_of r serial))
    if stored then answer r (codes "|success") else answer r (codes "|failed, repeat nid")

  unfoldable pub settle_order : ℕ → Order N → Request N → OrderStatus → Action (Trader N) (Unit {0})
  settle_order at o r OrderStatus.verified = do
    balance ← on_server (balance_of r.conn)
    if P.lt (P.mul r.price P.lot) balance
        then place_order at o r
        else answer r (codes "|failed, Insufficient balance")
  settle_order at o r OrderStatus.failed = answer r (codes "|failed")
  settle_order at o r OrderStatus.none = answer r (codes "|failed")

  -- What follows the reading of the fields.
  unfoldable pub book_request : ℕ → Request N → Action (Trader N) (Unit {0})
  book_request at r = do
    put_order at (order_of r)
    status ← (λ t. (verify P.floats t.product_list t.trade_basic_data r.price r.symbol, t))
    put_order at (record (order_of r) { status = some status })
    settle_order at (record (order_of r) { status = some status }) r status

  -- The body of the loop for one message, with the address that `new Order` gives.
  unfoldable pub handle_order : ℕ → Text → Action (Trader N) (Unit {0})
  handle_order at msg = do
    modify (λ t. record t { od = some at })
    put_order at blank_order
    r ← read_request (split msg bar)
    book_request at r

  -- One round of the loop.
  unfoldable pub get_order : ℕ → Action (Trader N) (Unit {0})
  get_order at = do
    t ← gets (λ t. t)
    if ltb 0 (check_space t.sr.dq)
        then (do
          msg ← on_server (zoom (λ s. s.dq) (λ q s. record s { dq = q }) pop_dta)
          handle_order at msg)
        else pure tt
