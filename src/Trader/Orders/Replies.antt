-- ===== src/Trader/Orders/Replies.antt =====
-- What the client and the database get for an order message.
use inertia_trader.Common.{
  ℕ, ◌≡◌, refl, sym, ap, ◌∙◌, Bool, true, false, some, List, [], ◌∷◌, ◌++◌, Text, codes, append-nil,
  if◌then◌else◌, Bool-cases, inl, inr,
}
use inertia_trader.Common.Int.{ℤ}
use inertia_trader.Common.Map.{assign, nat_key}
use inertia_trader.Common.Action.{Action, Outcome, ok, ◌>>=◌, ◌>>◌, zoom}
use inertia_trader.Common.Action.Laws.{>>=-ok}
use inertia_trader.Platform.{Platform}
use inertia_trader.Types.{Side, OrderStatus}
use inertia_trader.Funclib.Split.{split, bar}
use inertia_trader.Database.{insert_order_query, insert_order, mysql_query}
use inertia_trader.Server.{Server, insert_order_to_db}
use inertia_trader.Server.Frames.{send_to_client-found}
use inertia_trader.Trader.{Order, Trader, on_server}
use inertia_trader.Trader.Nid.{NidSource, generate_nid}
use inertia_trader.Trader.Risk.{verify}
use inertia_trader.Trader.Books.{insert_by_side, order_data_insert}
use inertia_trader.Trader.Orders.{
  Request, read_request, answer, data_of, order_of, place_order, settle_order, handle_order,
  side_of_int, side_of_text,
}
use inertia_trader.Trader.Orders.Outcomes.{
  Account, judged, handle_order-judged, settle_order-balance,
}

abbrev pub stored_text : Bool → Text
stored_text true = codes "|success"
stored_text false = codes "|failed, repeat nid"

-- The answer, by the verdict, by whether the balance covers the order, and by whether the database
-- took it.
abbrev pub reply_text : OrderStatus → Bool → Bool → Text
reply_text OrderStatus.verified true stored = stored_text stored
reply_text OrderStatus.verified false stored = codes "|failed, Insufficient balance"
reply_text OrderStatus.failed covered stored = codes "|failed"
reply_text OrderStatus.none covered stored = codes "|failed"

-- The commands for the database, by the verdict and the balance.
abbrev pub commands : OrderStatus → Bool → Text → List Text
commands OrderStatus.verified true query = query ∷ []
commands OrderStatus.verified false query = []
commands OrderStatus.failed covered query = []
commands OrderStatus.none covered query = []

module _ {N : Type 0} where
  -- A call that ends well sent one text to a socket, and these commands to the database.
  abbrev pub Answered : Outcome (Unit {0}) × Trader N → Trader N → ℕ → Text → List Text → Type 0
  Answered q t socket text sent =
      (q.0 ≡ ok tt)
      × (q.1.sr.wire ≡ t.sr.wire ++ (socket, text) ∷ [])
      × (q.1.sr.history ≡ t.sr.history ++ sent)

  -- The account, on a server with more commands behind it.
  abbrev account_later :
      (conn : ℤ) (s : Server N) (h : List Text)
      → Account conn s
      → Account conn (record s { history = h })
  account_later conn s h a = record {
    address = a.address;
    connection = a.connection;
    user = a.user;
    stored = a.stored;
    alive = a.alive;
    registered = a.registered;
  }

module _ {N : Type 0} (P : Platform N) where
  answer-Answered :
      (r : Request N) (text : Text) (t : Trader N) (a : Account r.conn t.sr)
      → Answered
          (answer P r text t)
          t
          a.connection.connection_socket
          (r.nid ++ text ++ codes "\n")
          []
  answer-Answered r text t a =
      let e =
        send_to_client-found P r.conn a.address a.connection (r.nid ++ text) t.sr a.stored
          a.alive in
      (
        ap (λ q. q.0) e,
        ap (λ q. q.1.wire) e,
        ap (λ q. q.1.history) e ∙ sym (append-nil t.sr.history),
      )

  abbrev reply_stored : Request N → Bool → Action (Trader N) (Unit {0})
  reply_stored r stored =
      if stored then answer P r (codes "|success") else answer P r (codes "|failed, repeat nid")

  reply_stored-Answered :
      (r : Request N) (stored : Bool) (t : Trader N) (a : Account r.conn t.sr)
      → Answered
          (reply_stored r stored t)
          t
          a.connection.connection_socket
          (r.nid ++ stored_text stored ++ codes "\n")
          []
  reply_stored-Answered r true t a = answer-Answered r (codes "|success") t a
  reply_stored-Answered r false t a = answer-Answered r (codes "|failed, repeat nid") t a

  -- From the book on: the order is stored, and the client is told whether it was.
  insert_order-Answered :
      (r : Request N) (serial : ℤ) (t : Trader N) (a : Account r.conn t.sr)
      → let query = insert_order_query P (data_of r serial) in
        Answered
          ((on_server (insert_order_to_db P (data_of r serial)) >>= reply_stored r) t)
          t
          a.connection.connection_socket
          (r.nid ++ stored_text (P.accepts t.sr.history query) ++ codes "\n")
          (query ∷ [])
  unfolding insert_order_to_db insert_order mysql_query
  insert_order-Answered r serial t a =
      let query = insert_order_query P (data_of r serial) in
      let h = t.sr.history ++ query ∷ [] in
      let (done, wire, history) =
        reply_stored-Answered r (P.accepts t.sr.history query)
          (record t { sr = record (t.sr) { history = h } }) (account_later r.conn t.sr h a) in
      (done, wire, history ∙ append-nil h)

  book_order-Answered :
      (at : ℕ) (o : Order N) (r : Request N) (serial : ℤ) (side : Side) (t : Trader N)
      (a : Account r.conn t.sr)
      → o.side ≡ some side
      → let query = insert_order_query P (data_of r serial) in
        Answered
          ((order_data_insert at o
              >> (on_server (insert_order_to_db P (data_of r serial)) >>= reply_stored r))
            t)
          t
          a.connection.connection_socket
          (r.nid ++ stored_text (P.accepts t.sr.history query) ++ codes "\n")
          (query ∷ [])
  unfolding order_data_insert
  book_order-Answered at o r serial Side.buy t a e =
      rw (order_data_insert, e)
        (insert_order-Answered r serial (insert_by_side (some Side.buy) at t) a)
  book_order-Answered at o r serial Side.sell t a e =
      rw (order_data_insert, e)
        (insert_order-Answered r serial (insert_by_side (some Side.sell) at t) a)
  book_order-Answered at o r serial Side.none t a e =
      rw (order_data_insert, e)
        (insert_order-Answered r serial (insert_by_side (some Side.none) at t) a)

  place_order-Answered :
      (at : ℕ) (o : Order N) (r : Request N) (side : Side) (serial : ℤ) (n : NidSource)
      (t : Trader N) (a : Account r.conn t.sr)
      → o.side ≡ some side
      → generate_nid t.nids ≡ (ok serial, n)
      → let query = insert_order_query P (data_of r serial) in
        Answered
          (place_order P at o r t)
          t
          a.connection.connection_socket
          (r.nid ++ stored_text (P.accepts t.sr.history query) ++ codes "\n")
          (query ∷ [])
  unfolding place_order
  place_order-Answered at o r side serial n t a s e =
      rw
        (
          place_order,
          >>=-ok (zoom (λ t. t.nids) (λ n t. record t { nids = n }) generate_nid) _ t
              (record t { nids = n }) serial (ap (λ q. (q.0, record t { nids = q.1 })) e),
        )
        (book_order-Answered at o r serial side
          (record t {
            nids = n;
            orders = assign at (record o { client_serial_num = some serial }) t.orders;
            side_flag = some (side_of_int r.side_number);
          })
          a s)

  settle_order-Answered :
      (at : ℕ) (o : Order N) (r : Request N) (status : OrderStatus) (side : Side) (serial : ℤ)
      (n : NidSource) (t : Trader N) (a : Account r.conn t.sr)
      → o.side ≡ some side
      → generate_nid t.nids ≡ (ok serial, n)
      → let query = insert_order_query P (data_of r serial) in
        let covered = P.lt (P.mul r.price P.lot) a.user.balance in
        Answered
          (settle_order P at o r status t)
          t
          a.connection.connection_socket
          (r.nid ++ reply_text status covered (P.accepts t.sr.history query) ++ codes "\n")
          (commands status covered query)
  unfolding settle_order
  settle_order-Answered at o r OrderStatus.verified side serial n t a s e =
      elim (Bool-cases (P.lt (P.mul r.price P.lot) a.user.balance)) [
        | inl enough ↦
            rw (settle_order-balance P at o r t a, enough)
              (place_order-Answered at o r side serial n t a s e)
        | inr short ↦
            rw (settle_order-balance P at o r t a, short)
              (answer-Answered r (codes "|failed, Insufficient balance") t a)
      ]
  settle_order-Answered at o r OrderStatus.failed side serial n t a s e =
      answer-Answered r (codes "|failed") t a
  settle_order-Answered at o r OrderStatus.none side serial n t a s e =
      answer-Answered r (codes "|failed") t a

  -- A message whose fields can be read, of an account that is known, where the risk check gives a
  -- verdict and the counter a serial number: the handling ends well and sends one text to the
  -- socket of its connection, that of the verdict, of the balance and of the answer of the
  -- database. The database gets the order if it is verified and covered, and no command if not.
  pub handle_order-Answered :
      (at : ℕ) (msg : Text) (r : Request N) (status : OrderStatus) (t : Trader N) (serial : ℤ)
      (n : NidSource) (a : Account r.conn t.sr)
      → ((t' : Trader N) → read_request P (split msg bar) t' ≡ (ok r, t'))
      → verify P.floats t.product_list t.trade_basic_data r.price r.symbol ≡ ok status
      → generate_nid t.nids ≡ (ok serial, n)
      → let query = insert_order_query P (data_of r serial) in
        let covered = P.lt (P.mul r.price P.lot) a.user.balance in
        Answered
          (handle_order P at msg t)
          t
          a.connection.connection_socket
          (r.nid ++ reply_text status covered (P.accepts t.sr.history query) ++ codes "\n")
          (commands status covered query)
  handle_order-Answered at msg r status t serial n a reads verdict number =
      let o = record (order_of r) { status = some status } in
      rw (handle_order-judged P at msg r status t reads verdict) (
        settle_order-Answered at o r status (side_of_text r.side_text) serial n
          (judged P at r status t) a refl number)
