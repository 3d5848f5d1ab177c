-- ===== src/Trader/Orders/Placement.antt =====
-- Which books an order enters, whatever becomes of it in the database and on the wire.
use inertia_trader.Common.{
  ℕ, ◌≡◌, refl, ◌∙◌, Bool, true, false, some, List, codes, ap, if◌then◌else◌,
}
use inertia_trader.Common.Int.{ℤ}
use inertia_trader.Common.Map.{assign, nat_key}
use inertia_trader.Common.Action.{Action, Outcome, ok, fault, throws, ◌>>=◌, ◌>>◌, zoom}
use inertia_trader.Common.Action.Laws.{>>=-ok}
use inertia_trader.Platform.{Platform}
use inertia_trader.Types.{Side}
use inertia_trader.Server.{Server, insert_order_to_db}
use inertia_trader.Trader.{Order, Trader, on_server}
use inertia_trader.Trader.Nid.{NidSource, generate_nid}
use inertia_trader.Trader.Books.{insert_by_side, order_data_insert, multiset_insert}
use inertia_trader.Trader.Orders.{Request, answer, data_of, place_order, side_of_int}

-- The four books of a trader.
pub record Books : Type 0 where
  pub buyside : List ℕ
  pub sellside : List ℕ
  pub raw_buyside : List ℕ
  pub raw_sellside : List ℕ

-- The books with an order in the raw book of its side.
pub entered : Side → ℕ → Books → Books
entered Side.buy a b = record b { raw_buyside = multiset_insert a b.raw_buyside }
entered Side.sell a b = record b { raw_sellside = multiset_insert a b.raw_sellside }
entered Side.none a b = record b { raw_sellside = multiset_insert a b.raw_sellside }

module _ {N : Type 0} where
  unfoldable pub books : Trader N → Books
  books t = record {
    buyside = t.buyside;
    sellside = t.sellside;
    raw_buyside = t.raw_buyside;
    raw_sellside = t.raw_sellside;
  }

  -- What the server does leaves the books of the trader alone.
  on_server->>=-books :
      {A B : Type 0} (m : Action (Server N) A) (k : A → Action (Trader N) B) (t : Trader N)
      → ((a : A) (t' : Trader N) → books (k a t').1 ≡ books t')
      → books ((on_server m >>= k) t).1 ≡ books t
  unfolding books
  on_server->>=-books m k t h = after (m t.sr).0 refl
    where
      after : (r : Outcome _) → (m t.sr).0 ≡ r → books ((on_server m >>= k) t).1 ≡ books t
      after (ok a) e = rw (e, ◌>>=◌) (h a (record t { sr = (m t.sr).1 }))
      after throws e = rw (e, ◌>>=◌)
      after fault e = rw (e, ◌>>=◌)

  insert_by_side-books :
      (s : Side) (a : ℕ) (t : Trader N)
      → books (insert_by_side (some s) a t) ≡ entered s a (books t)
  unfolding books entered
  insert_by_side-books Side.buy a t = refl
  insert_by_side-books Side.sell a t = refl
  insert_by_side-books Side.none a t = refl

module _ {N : Type 0} (P : Platform N) where
  answer_stored :
      (r : Request N) (stored : Bool) (t : Trader N)
      → books
          ((if stored
              then answer P r (codes "|success")
              else answer P r (codes "|failed, repeat nid"))
            t).1
        ≡ books t
  unfolding books
  answer_stored r true t = refl
  answer_stored r false t = refl

  enter_order-books :
      (at : ℕ) (o : Order N) (r : Request N) (side : Side) (serial : ℤ) (t : Trader N)
      → o.side ≡ some side
      → books
          ((order_data_insert at o
              >> (on_server (insert_order_to_db P (data_of r serial)) >>= λ stored.
                  if stored
                  then answer P r (codes "|success")
                  else answer P r (codes "|failed, repeat nid")))
            t).1
        ≡ entered side at (books t)
  unfolding order_data_insert
  enter_order-books at o r side serial t s =
      let step : order_data_insert at o t ≡ (ok tt, insert_by_side (some side) at t) =
        rw (order_data_insert, s) in
      rw (>>=-ok (order_data_insert at o) _ t (insert_by_side (some side) at t) tt step) (
        on_server->>=-books (insert_order_to_db P (data_of r serial))
          (λ stored.
            if stored
            then answer P r (codes "|success")
            else answer P r (codes "|failed, repeat nid"))
          (insert_by_side (some side) at t) (λ stored t'. answer_stored r stored t')
        ∙ insert_by_side-books side at t)

  -- An order that the risk check and the balance let through enters the raw book of its side, and no
  -- other book: the books that a cancellation searches stay as they were. This holds if the order has
  -- a side and gets a serial number, whatever the database and the connection answer, also when the
  -- client is told that the order failed.
  pub place_order-books :
      (at : ℕ) (o : Order N) (r : Request N) (side : Side) (serial : ℤ) (n : NidSource)
      (t : Trader N)
      → o.side ≡ some side
      → generate_nid t.nids ≡ (ok serial, n)
      → books (place_order P at o r t).1 ≡ entered side at (books t)
  unfolding place_order order_data_insert books
  place_order-books at o r side serial n t s e =
      rw
        (
          place_order,
          >>=-ok (zoom (λ t. t.nids) (λ n t. record t { nids = n }) generate_nid) _ t
              (record t { nids = n }) serial (ap (λ q. (q.0, record t { nids = q.1 })) e),
        )
        (enter_order-books at o r side serial
          (record t {
            nids = n;
            orders = assign at (record o { client_serial_num = some serial }) t.orders;
            side_flag = some (side_of_int r.side_number);
          })
          s)
