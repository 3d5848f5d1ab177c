-- ===== src/Trader/Startup.antt =====
-- `Trader::essentialData_initialise`, `loadExistOrder`, `startTransaction`, `endTransaction`, and
-- the choice of the mode in src/main.cpp.
pub mod Loading
use inertia_trader.Common.{
  ℕ, suc, Bool, true, false, not, ◌&&◌, Option, some, List, [], ◌∷◌, ◌++◌, Text, codes, text_eq,
  length, ltb, if◌then◌else◌,
}
use inertia_trader.Common.Int.{ℤ, pos, int_eq}
use inertia_trader.Common.Map.{nat_key}
use inertia_trader.Common.Action.{Action, fault, ◌>>=◌, ◌>>◌, pure, gets, modify, when}
use inertia_trader.Platform.{Platform}
use inertia_trader.Types.{OrderData}
use inertia_trader.Database.{get_trading_data, get_product_list, get_exist_order}
use inertia_trader.Server.{on_history}
use inertia_trader.Server.Sockets.{SocketCalls, new_server}
use inertia_trader.Trader.{Order, Trader, blank_order, on_server, put_order, set_trader_status}

-- The text of a log line is `"(Trader) exist order volume : " + existOrder.size()`: a pointer
-- into a literal of 30 characters, moved on by the number of orders.
abbrev pub literal_length : ℕ
literal_length = 30

pub data Thread : Type 0 where
  order_receive cancelorder_receive matchup handle_exec_report : Thread

module _ {N : Type 0} where
  -- What `Order` a row of the database becomes.
  abbrev pub loaded_order : OrderData N → Order N
  loaded_order d = record blank_order {
    nid = d.nid;
    order_price = some d.order_price;
    side_number = some d.side;
    client_serial_num = some d.client_serialnum;
  }

  abbrev pub enter_if : Bool → ℕ → Trader N → Trader N
  enter_if true a t = record t { buyside = t.buyside ++ a ∷ [] }
  enter_if false a t = record t { sellside = t.sellside ++ a ∷ [] }

  abbrev pub enter : ℤ → ℕ → Trader N → Trader N
  enter side a t = enter_if (int_eq side (pos 1)) a t

  -- The loop, with the addresses that the allocator gives from `a` on.
  unfoldable pub load_all : ℕ → List (OrderData N) → Action (Trader N) (Unit {0})
  load_all a [] = pure tt
  load_all a (d ∷ ds) = do
    put_order a (loaded_order d)
    modify (enter d.side a)
    load_all (suc a) ds

  unfoldable end_transaction : Trader N → Trader N
  end_transaction t = record t { server_status = true }

module _ {N : Type 0} (P : Platform N) where
  -- The handler's `connstatus` is a field of the trader. `conn` is never null after `mysql_init`.
  unfoldable pub essential_data : Action (Trader N) (Unit {0})
  essential_data = do
    t ← gets (λ t. t)
    when t.db_status (do
      basic ← on_server (on_history (get_trading_data P true))
      modify (λ t. record t { trade_basic_data = basic })
      products ← on_server (on_history (get_product_list P true))
      modify (λ t. record t { product_list = products }))

  unfoldable pub load_exist_order : ℕ → Action (Trader N) (Unit {0})
  load_exist_order a = do
    exist ← on_server (on_history (get_exist_order P true))
    if ltb literal_length (length exist) then (λ t. (fault, t)) else load_all a exist

  -- The constructor, on members that are still empty.
  unfoldable pub new_trader : ℕ → Action (Trader N) (Unit {0})
  new_trader a = do essential_data; load_exist_order a; modify (set_trader_status true)

  -- The threads that start. Without a connection, or in test mode, the trader only waits for the
  -- end, which is there at once.
  unfoldable start_transaction : Option (List Text) → SocketCalls → Action (Trader N) (List Thread)
  start_transaction file calls = do
    on_server (new_server P file (codes "socket") calls)
    t ← gets (λ t. t)
    if t.sr.conn_status && not t.testmode
        then pure (order_receive ∷ cancelorder_receive ∷ matchup ∷ handle_exec_report ∷ [])
        else (do modify (λ t. record t { server_status = true }); pure [])

-- `mode=="test"` in `main`
unfoldable test_mode : Text → Bool
test_mode mode = text_eq mode (codes "test")
