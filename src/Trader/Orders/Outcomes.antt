-- ===== src/Trader/Orders/Outcomes.antt =====
-- What becomes of an order message, by the risk check, the balance and the database.
use inertia_trader.Common.{ℕ, ◌≡◌, ap, ◌∙◌, if◌then◌else◌, some, Text, codes, get_elem?}
use inertia_trader.Common.Int.{ℤ}
use inertia_trader.Common.Action.{Action, ok, ◌>>◌}
use inertia_trader.Common.Action.Laws.{>>=-ok, or_fault-some, or_fault->>=}
use inertia_trader.Common.Map.{lookup, assign, text_key, int_key, nat_key}
use inertia_trader.Platform.{Platform}
use inertia_trader.Types.{OrderStatus, UserData}
use inertia_trader.Funclib.Split.{split, bar}
use inertia_trader.Connection.{Connection}
use inertia_trader.Server.{Server, get_conn_object, connection_at}
use inertia_trader.Server.Frames.{get_conn_object-found}
use inertia_trader.Trader.{Order, Trader, blank_order, on_server, put_order}
use inertia_trader.Trader.Risk.{verify}
use inertia_trader.Trader.Orders.{
  Request, read_request, balance_of, answer, order_of, place_order, settle_order, book_request,
  handle_order,
}

-- The connection and the user that a request names, and that user's balance.
pub record Account {N : Type 0} (conn : ℤ) (s : Server N) : Type 0 where
  pub address : ℕ
  pub connection : Connection
  pub user : UserData N
  pub stored : lookup conn s.conn_storage ≡ some (some address)
  pub alive : get_elem? s.conns address ≡ some connection
  pub registered : lookup connection.username s.user_list ≡ some user

balance_of-Account :
    {N : Type 0} (conn : ℤ) (s : Server N) (a : Account conn s)
    → balance_of conn s ≡ (ok a.user.balance, s)
unfolding balance_of
balance_of-Account conn s a = rw (
  balance_of,
  >>=-ok (get_conn_object conn) _ s s (some a.address)
      (get_conn_object-found conn (some a.address) s a.stored),
  >>=-ok (connection_at a.address) _ s s a.connection
      (or_fault-some (get_elem? s.conns a.address) a.connection s a.alive),
  or_fault->>= _ s a.registered,
)

module _ {N : Type 0} (P : Platform N) where
  -- The order of a known account is placed if the balance covers its price times the lot; if not, it is
  -- answered with that, and nothing else happens.
  pub settle_order-balance :
      (at : ℕ) (o : Order N) (r : Request N) (t : Trader N) (a : Account r.conn t.sr)
      → settle_order P at o r OrderStatus.verified t
        ≡ (if P.lt (P.mul r.price P.lot) a.user.balance
              then place_order P at o r
              else answer P r (codes "|failed, Insufficient balance"))
            t
  unfolding settle_order
  settle_order-balance at o r t a =
      >>=-ok (on_server (balance_of r.conn))
        (λ balance.
          if P.lt (P.mul r.price P.lot) balance
          then place_order P at o r
          else answer P r (codes "|failed, Insufficient balance"))
        t t a.user.balance
        (ap (λ q. (q.0, record t { sr = q.1 })) (balance_of-Account r.conn t.sr a))

  -- The trader when a message is judged: the newest order is its own, with what the message says.
  abbrev pub judged : ℕ → Request N → OrderStatus → Trader N → Trader N
  judged at r status t = record t {
    od = some at;
    orders =
        assign at (record (order_of r) { status = some status })
          (assign at (order_of r) (assign at blank_order t.orders));
  }

  -- A message whose fields can be read is settled with the verdict of the risk check.
  pub handle_order-judged :
      (at : ℕ) (msg : Text) (r : Request N) (status : OrderStatus) (t : Trader N)
      → ((t' : Trader N) → read_request P (split msg bar) t' ≡ (ok r, t'))
      → verify P.floats t.product_list t.trade_basic_data r.price r.symbol ≡ ok status
      → handle_order P at msg t
        ≡ settle_order P at
            (record (order_of r) { status = some status })
            r
            status
            (judged at r status t)
  unfolding handle_order book_request
  handle_order-judged at msg r status t reads verdict =
      let t1 : Trader N = record t { od = some at; orders = assign at blank_order t.orders } in
      let t2 : Trader N = record t1 { orders = assign at (order_of r) t1.orders } in
      let judge : Action (Trader N) OrderStatus =
        λ t. (verify P.floats t.product_list t.trade_basic_data r.price r.symbol, t) in
      >>=-ok (read_request P (split msg bar)) (book_request P at) t1 t1 r (reads t1)
      ∙ >>=-ok judge
          (λ status.
            put_order at (record (order_of r) { status = some status })
            >> settle_order P at (record (order_of r) { status = some status }) r status)
          t2 t2 status (ap (λ o. (o, t2)) verdict)

  -- A message whose fields can be read, and whose order the risk check fails, is answered with that,
  -- and does nothing else but leave its order as the newest one on the heap.
  pub handle_order-failed :
      (at : ℕ) (msg : Text) (r : Request N) (t : Trader N)
      → ((t' : Trader N) → read_request P (split msg bar) t' ≡ (ok r, t'))
      → verify P.floats t.product_list t.trade_basic_data r.price r.symbol ≡ ok OrderStatus.failed
      → handle_order P at msg t ≡ answer P r (codes "|failed") (judged at r OrderStatus.failed t)
  unfolding settle_order
  handle_order-failed at msg r t reads fails =
      handle_order-judged at msg r OrderStatus.failed t reads fails
