-- ===== src/Trader/Integrity/Arrival.antt =====
-- A sell order that arrives, and the pass of `matchup` behind it.
use inertia_trader.Common.{
  ℕ, ◌≡◌, ◌≢◌, refl, ap, ◌∙◌, Bool, true, Option, none, some, List, [], ◌∷◌, ◌++◌, Text, codes,
  get_elem?, set, if◌then◌else◌,
}
use inertia_trader.Common.Int.{ℤ}
use inertia_trader.Common.Map.{
  Map, lookup, assign, insert, nat_key, text_key, int_key, lookup-assign_any, lookup-assign_other,
}
use inertia_trader.Common.Action.{Action, Outcome, ok, fault, gets, modify, zoom}
use inertia_trader.Common.Action.Laws.{>>=-ok}
use inertia_trader.Common.Action.Post.{Keeps, Keeps->>=, Keeps-or_fault, Keeps-if}
use inertia_trader.Platform.{Platform}
use inertia_trader.Types.{Side, Stock, OrderStatus}
use inertia_trader.Funclib.Split.{split, bar}
use inertia_trader.Connection.{Connection, sendto}
use inertia_trader.Server.{
  Server, send_to_client, get_conn_object, send_on, insert_order_to_db, connection_at,
}
use inertia_trader.Trader.{Order, Trader, blank_order, on_server}
use inertia_trader.Trader.Nid.{NidSource, generate_nid}
use inertia_trader.Trader.Risk.{verify}
use inertia_trader.Trader.Books.{insert_by_side, order_data_insert, multiset_insert}
use inertia_trader.Trader.Orders.{
  Request, read_request, answer, data_of, order_of, place_order, handle_order, side_of_int,
  side_of_text,
}
use inertia_trader.Trader.Orders.Outcomes.{
  Account, judged, handle_order-judged, settle_order-balance,
}
use inertia_trader.Trader.Matching.{execute, match_pass}
use inertia_trader.Trader.Matching.Trades.{Prices, match_pass-trade}
use inertia_trader.Trader.Matching.Reported.{execute-reports}
use inertia_trader.Trader.Holdings.{Holdings, holdings}

-- What a pass of the matching reads.
record View (N : Type 0) : Type 0 where
  newest : Option ℕ
  orders : Map ℕ (Order N)
  held : Holdings
  quotes : Map Text (Option (Stock N))

module _ {N : Type 0} where
  abbrev view : Trader N → View N
  view t = record { newest = t.od; orders = t.orders; held = holdings t; quotes = t.sr.quotes_list }

  abbrev quotes_of : Server N → Map Text (Option (Stock N))
  quotes_of s = s.quotes_list

  Keeps-server :
      {A : Type 0} (m : Action (Server N) A) → Keeps quotes_of m → Keeps view (on_server m)
  unfolding Keeps
  Keeps-server m keeps t = λ i. record (view t) { quotes = keeps t.sr i }

  Keeps-read : {A : Type 0} (f : Server N → A) → Keeps quotes_of (gets f)
  unfolding Keeps
  Keeps-read f s = refl

module _ {N : Type 0} (P : Platform N) where
  Keeps-get_conn_object : (conn : ℤ) → Keeps (quotes_of {N = N}) (get_conn_object conn)
  unfolding Keeps get_conn_object
  Keeps-get_conn_object conn s = found (lookup conn s.conn_storage)
    where
      found :
          (p : Option (Option ℕ))
          → quotes_of
              (elim p as (λ _. Outcome (Option ℕ) × Server N) [
                | none ↦ (ok none, record s { conn_storage = insert conn none s.conn_storage })
                | some q ↦ (ok q, s)
              ]).1
            ≡ s.quotes_list
      found none = refl
      found (some q) = refl

  Keeps-connection_at : (a : ℕ) → Keeps (quotes_of {N = N}) (connection_at a)
  unfolding Keeps
  Keeps-connection_at a s = Keeps-or_fault quotes_of (get_elem? s.conns a) s

  Keeps-write :
      (a : ℕ) (text : Text) (c : Connection)
      → Keeps (quotes_of {N = N}) (
          modify (λ s. record s {
            conns = set s.conns a (sendto (P.delivers s.wire c.connection_socket text) c);
            wire = s.wire ++ (c.connection_socket, text) ∷ [];
          }))
  unfolding Keeps
  Keeps-write a text c s = refl

  Keeps-send_on : (a : ℕ) (text : Text) → Keeps quotes_of (send_on P a text)
  unfolding send_on
  Keeps-send_on a text =
      Keeps->>= quotes_of _ _ (Keeps-connection_at a)
        λ c. Keeps->>= quotes_of _ _ (Keeps-read (λ s. s)) λ _. Keeps-write a text c

  Keeps-send_to_client : (conn : ℤ) (text : Text) → Keeps quotes_of (send_to_client P conn text)
  unfolding send_to_client
  Keeps-send_to_client conn text = Keeps->>= quotes_of _ _ (Keeps-get_conn_object conn) λ p.
      Keeps->>= quotes_of _ _ (Keeps-or_fault quotes_of p) λ a. Keeps-send_on a (text ++ codes "\n")

  answers-view :
      (r : Request N) (stored : Bool)
      → Keeps view (
          if stored
          then answer P r (codes "|success")
          else answer P r (codes "|failed, repeat nid"))
  answers-view r stored =
      Keeps-if view stored _ _
        (Keeps-server (send_to_client P r.conn (r.nid ++ codes "|success"))
          (Keeps-send_to_client r.conn (r.nid ++ codes "|success")))
        (Keeps-server (send_to_client P r.conn (r.nid ++ codes "|failed, repeat nid"))
          (Keeps-send_to_client r.conn (r.nid ++ codes "|failed, repeat nid")))

  Keeps-insert_order :
      (r : Request N) (serial : ℤ) → Keeps quotes_of (insert_order_to_db P (data_of r serial))
  unfolding Keeps insert_order_to_db
  Keeps-insert_order r serial s = refl

  -- The trader when an order enters its book.
  abbrev numbered : ℕ → Request N → Order N → ℤ → NidSource → Trader N → Trader N
  numbered at r o serial n t = record t {
    nids = n;
    orders = assign at (record o { client_serial_num = some serial }) t.orders;
    side_flag = some (side_of_int r.side_number);
  }

  place_order-view :
      (at : ℕ) (o : Order N) (r : Request N) (side : Side) (serial : ℤ) (n : NidSource)
      (t : Trader N)
      → o.side ≡ some side
      → generate_nid t.nids ≡ (ok serial, n)
      → view (place_order P at o r t).1
        ≡ view (insert_by_side (some side) at (numbered at r o serial n t))
  unfolding place_order order_data_insert Keeps
  place_order-view at o r side serial n t s e =
      let t2 = numbered at r o serial n t in
      let entered : order_data_insert at o t2 ≡ (ok tt, insert_by_side (some side) at t2) =
        ap
          (λ x. elim x [
            | none ↦ (fault, t2)
            | some side' ↦ (ok tt, insert_by_side (some side') at t2)
          ])
          s in
      rw
        (
          place_order,
          >>=-ok (zoom (λ t. t.nids) (λ n t. record t { nids = n }) generate_nid) _ t
              (record t { nids = n }) serial (ap (λ q. (q.0, record t { nids = q.1 })) e),
          >>=-ok (order_data_insert at o) _ t2 (insert_by_side (some side) at t2) tt entered,
        )
        (Keeps->>= view (on_server (insert_order_to_db P (data_of r serial)))
          (λ stored.
            if stored
            then answer P r (codes "|success")
            else answer P r (codes "|failed, repeat nid"))
          (Keeps-server (insert_order_to_db P (data_of r serial)) (Keeps-insert_order r serial))
          (answers-view r) (insert_by_side (some side) at t2))

  -- A sell order whose message can be read, that the risk check verifies, whose account is known and
  -- covers it, and that gets a serial number, at an address that the front buy order does not have:
  -- where the raw book of the sellers is empty and the product is quoted, the next pass of the matching
  -- ends well and trades it with the front of the buy book, at the price of the sell order, whatever
  -- the price of the buy order is. Its price is a number that is not less than itself.
  pub handle_order-match_pass :
      (at : ℕ) (msg : Text) (r : Request N) (t : Trader N) (serial : ℤ) (n : NidSource)
      (a : Account r.conn t.sr) (b : ℕ) (bs : List ℕ) (odb : Order N) (st : Stock N)
      → ((t' : Trader N) → read_request P (split msg bar) t' ≡ (ok r, t'))
      → verify P.floats t.product_list t.trade_basic_data r.price r.symbol ≡ ok OrderStatus.verified
      → P.lt (P.mul r.price P.lot) a.user.balance ≡ true
      → generate_nid t.nids ≡ (ok serial, n)
      → side_of_text r.side_text ≡ Side.sell
      → P.ge r.price r.price ≡ true
      → t.raw_buyside ≡ b ∷ bs
      → t.raw_sellside ≡ []
      → b ≢ at
      → lookup b t.orders ≡ some odb
      → lookup (codes "KKC") t.sr.quotes_list ≡ some (some st)
      → let q = match_pass P (handle_order P at msg t).1 in
        (q.0 ≡ ok tt)
        × (q.1.raw_buyside ≡ bs)
        × (q.1.raw_sellside ≡ [])
        × (q.1.report_list ≡ t.report_list ++ b ∷ at ∷ [])
        × (lookup b q.1.orders ≡ some (record odb { exec_price = some r.price }))
  unfolding multiset_insert
  handle_order-match_pass at msg r t serial n a b bs odb st reads verdict covered number sell same
        eb es ne hb quoted =
      let t' = judged P at r OrderStatus.verified t in
      let o = record (order_of r) { status = some OrderStatus.verified } in
      let o' = record o { client_serial_num = some serial } in
      let t1 = (handle_order P at msg t).1 in
      let placed : handle_order P at msg t ≡ place_order P at o r t' =
        handle_order-judged P at msg r OrderStatus.verified t reads verdict
        ∙ settle_order-balance P at o r t' a
        ∙ ap
            (λ b.
              (if b
                  then place_order P at o r
                  else answer P r (codes "|failed, Insufficient balance"))
                t')
            covered in
      let seen : view t1 ≡ view (insert_by_side (some Side.sell) at (numbered at r o serial n t')) =
        ap (λ q. view q.1) placed
        ∙ place_order-view at o r (side_of_text r.side_text) serial n t' refl number
        ∙ ap (λ s. view (insert_by_side (some s) at (numbered at r o serial n t'))) sell in
      let prices : Prices P t1 at = record {
        newest = at;
        last = o';
        bid = r.price;
        ods = o';
        ask = r.price;
        is_newest = ap (λ v. v.newest) seen;
        newest_at = ap (λ v. lookup at v.orders) seen ∙ lookup-assign_any at o' t'.orders;
        has_bid = refl;
        sell_at = ap (λ v. lookup at v.orders) seen ∙ lookup-assign_any at o' t'.orders;
        has_ask = refl;
      } in
      let buyer : lookup b t1.orders ≡ some odb =
        ap (λ v. lookup b v.orders) seen
        ∙ lookup-assign_other at b o' t'.orders ne
        ∙ lookup-assign_other at b o _ ne
        ∙ lookup-assign_other at b (order_of r) _ ne
        ∙ lookup-assign_other at b blank_order t.orders ne
        ∙ hb in
      let t2 = (execute P b at t1).1 in
      let (ends, b2, _, reports) =
        execute-reports P b at t1 odb o' r.price st ne buyer prices.sell_at refl
          (ap (λ v. lookup (codes "KKC") v.quotes) seen ∙ quoted) in
      let whole : match_pass P t1 ≡ (ok tt, record t2 { raw_buyside = bs; raw_sellside = [] }) =
        match_pass-trade P t1 b bs [] at prices (ap (λ v. v.held.buys) seen ∙ eb)
          (ap (λ v. v.held.sells) seen ∙ ap (multiset_insert at) es) same
        ∙ >>=-ok (execute P b at)
            (λ _. modify (λ t. record t { raw_buyside = bs; raw_sellside = [] })) t1 t2 tt
            (λ i. (ends i, t2)) in
      (
        ap (λ q. q.0) whole,
        ap (λ q. q.1.raw_buyside) whole,
        ap (λ q. q.1.raw_sellside) whole,
        ap (λ q. q.1.report_list) whole ∙ reports ∙ ap (λ v. v.held.reports ++ b ∷ at ∷ []) seen,
        ap (λ q. lookup b q.1.orders) whole ∙ b2,
      )
