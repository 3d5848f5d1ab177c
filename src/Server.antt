-- ===== src/Server.antt =====
-- src/InertiaTrader/server.{h,cpp}. The connections lie on a heap: an address is an index of
-- `conns`, and `conn_storage` maps the ids to addresses, or to a null pointer. The lines of the log
-- and of the console are left out.
pub mod Framing
pub mod Frames
pub mod Messages
pub mod Sockets
pub mod Quotes
pub mod Pointers
use inertia_trader.Common.{
  ℕ, zero, suc, ◌+◌, ◌%◌, Bool, true, false, not, ◌&&◌, Option, none, some, List, [], ◌∷◌, ◌++◌,
  Text, codes, get_elem?, set, if◌then◌else◌, length,
}
use inertia_trader.Common.Int.{ℤ, pos}
use inertia_trader.Common.Map.{Map, lookup, insert, assign, text_key, int_key}
use inertia_trader.Common.Action.{
  Action, Outcome, ok, fault, throws, ◌>>=◌, ◌>>◌, pure, or_fault, or_throw, gets, modify, zoom,
  when,
}
use inertia_trader.Platform.{Platform}
use inertia_trader.Types.{Stock, UserData, OrderData}
use inertia_trader.Funclib.DataQueue.{DataQueue, new_queue}
use inertia_trader.Database.{History, get_user_data, insert_order}
use inertia_trader.Connection.{Connection, sendto}

pub record Server (N : Type 0) : Type 0 where
  pub conn_status : Bool
  pub user_list : Map Text (UserData N)
  pub quotes_list : Map Text (Option (Stock N))
  pub dq : DataQueue
  pub dq_orderhandle : DataQueue
  pub conn_storage : Map ℤ (Option ℕ)
  pub conns : List Connection
  -- what was handed to `send`, by socket, the oldest first
  pub wire : List (ℕ × Text)
  -- the commands that reached the database
  pub history : History
  pub db_status : Bool
  -- how often `rand` was called
  pub draws : ℕ

module _ {N : Type 0} where
  abbrev pub on_history : {A : Type 0} → Action History A → Action (Server N) A
  on_history = zoom (λ s. s.history) (λ h s. record s { history = h })

  unfoldable pub set_conn_status : Bool → Action (Server N) (Unit {0})
  set_conn_status status = modify (λ s. record s { conn_status = status })

  -- `cn` for a pointer that is not null
  abbrev pub connection_at : ℕ → Action (Server N) Connection
  connection_at a s = or_fault (get_elem? s.conns a) s

  abbrev pub write_connection : ℕ → Connection → Server N → Server N
  write_connection a c s = record s { conns = set s.conns a c }

  -- `connStorage_[connNum]`: a missing id gets a null pointer.
  unfoldable pub get_conn_object : ℤ → Action (Server N) (Option ℕ)
  get_conn_object conn_num s = elim (lookup conn_num s.conn_storage) [
    | none ↦ (ok none, record s { conn_storage = insert conn_num none s.conn_storage })
    | some p ↦ (ok p, s)
  ]

  -- `quotesList[stockNum]->…`: a missing name gets a null pointer.
  unfoldable pub quote_at : Text → Action (Server N) (Stock N)
  quote_at stock_num s = elim (lookup stock_num s.quotes_list) [
    | none ↦ (fault, record s { quotes_list = insert stock_num none s.quotes_list })
    | some none ↦ (fault, s)
    | some (some st) ↦ (ok st, s)
  ]

  -- The server that `new Server` starts from. `connStatus_` is not set yet.
  abbrev pub blank_server : Bool → Bool → History → Server N
  blank_server unset db_status history = record {
    conn_status = unset;
    user_list = [];
    quotes_list = [];
    dq = new_queue 100;
    dq_orderhandle = new_queue 100;
    conn_storage = [];
    conns = [];
    wire = [];
    history = history;
    db_status = db_status;
    draws = 0;
  }

module _ {N : Type 0} (P : Platform N) where
  -- `cn->sendto(text)`
  unfoldable pub send_on : ℕ → Text → Action (Server N) (Unit {0})
  send_on a text = do
    c ← connection_at a
    s ← gets (λ s. s)
    modify (λ s. record s {
      conns = set s.conns a (sendto (P.delivers s.wire c.connection_socket text) c);
      wire = s.wire ++ (c.connection_socket, text) ∷ [];
    })

  unfoldable pub send_to_client : ℤ → Text → Action (Server N) (Unit {0})
  send_to_client conn_num msg = do
    p ← get_conn_object conn_num
    a ← or_fault p
    send_on a (msg ++ codes "\n")

  unfoldable pub insert_order_to_db : OrderData N → Action (Server N) Bool
  insert_order_to_db od = on_history (insert_order P od)

  unfoldable pub updated_stock : N → Stock N → Stock N
  updated_stock price st =
      if P.lt price st.price_min
      then record st { price_now = price; price_min = price }
      else if P.lt st.price_max price
      then record st { price_now = price; price_max = price }
      else record st { price_now = price }

  unfoldable pub quote_update : Text → N → Action (Server N) (Unit {0})
  quote_update stock_num exec_price = do
    st ← quote_at stock_num
    modify (λ s. record s {
      quotes_list = assign stock_num (some (updated_stock exec_price st)) s.quotes_list;
    })

  unfoldable pub essential_data_initialise : Action (Server N) (Unit {0})
  essential_data_initialise = do
    s ← gets (λ s. s)
    when s.db_status
        (do users ← on_history (get_user_data P true); modify (λ s. record s { user_list = users }))
    modify (λ s. record s {
      quotes_list =
          insert (codes "KKC")
            (some (record { price_now = P.sixty; price_max = P.sixty; price_min = P.sixty }))
            s.quotes_list;
    })
