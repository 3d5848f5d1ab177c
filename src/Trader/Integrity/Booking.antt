-- ===== src/Trader/Integrity/Booking.antt =====
-- A round of `getOrder` books complete orders only.
use inertia_trader.Common.{
  ℕ, ◌≡◌, ◌≢◌, refl, Bool, true, false, some, List, [], ◌∷◌, ◌++◌, Text, codes, text_eq, All, arith,
  if◌then◌else◌, ltb,
}
use inertia_trader.Common.Int.{ℤ}
use inertia_trader.Common.Map.{Map, lookup, assign, nat_key, lookup-assign_any}
use inertia_trader.Common.Action.{Action, zoom, pure, ◌>>=◌}
use inertia_trader.Common.Action.Triple.{
  Triple, Preserves, Triple-bind, Triple-Preserves, Triple-last, Triple-modify, Preserves->>=,
  Preserves-modify, Preserves-gets, Triple-out, Preserves-pure, Preserves-if, preserve_rules,
}
use inertia_trader.Platform.{Platform}
use inertia_trader.Types.{Side, OrderStatus}
use inertia_trader.Funclib.Split.{split, bar}
use inertia_trader.Funclib.DataQueue.{pop_dta, check_space}
use inertia_trader.Server.{Server, send_to_client, insert_order_to_db}
use inertia_trader.Trader.{Order, Trader, on_server, put_order, blank_order}
use inertia_trader.Trader.Nid.{generate_nid}
use inertia_trader.Trader.Risk.{verify}
use inertia_trader.Trader.Books.{order_data_insert, insert_by_side}
use inertia_trader.Trader.Books.Sorted.{count, multiset_insert-IsSorted}
use inertia_trader.Trader.Orders.{
  Request, answer, data_of, place_order, settle_order, book_request, handle_order, get_order,
  order_of, balance_of, side_of_int, read_request,
}
use inertia_trader.Trader.Holdings.{Holdings, holdings, total}
use inertia_trader.Trader.Integrity.{
  IsComplete, Booked, Sound, IsSound, Unheld, Sound-assign_free, All-multiset_insert,
}

module _ {N : Type 0} where
  -- A call of the server, which holds no order.
  pub Preserves-on_server :
      {A : Type 0} (J : Map ℕ (Order N) → Holdings → Type 0) (m : Action (Server N) A)
      → Preserves (λ t. J t.orders (holdings t)) (on_server m)
  Preserves-on_server J m = record { keeps = λ t i. i }

  abbrev Apart : ℕ → Map ℕ (Order N) → Holdings → Type 0
  Apart at m h = Sound m h × Unheld at h

  abbrev IsApart : ℕ → Trader N → Type 0
  IsApart at t = Apart at t.orders (holdings t)

  Preserves-put_order : (at : ℕ) (o : Order N) → Preserves (IsApart at) (put_order at o)
  Preserves-put_order at o = record {
    keeps = λ t i. (Sound-assign_free t.orders (holdings t) at o i.1 i.0, i.1);
  }

  Preserves-numbers :
      (at : ℕ)
      → Preserves (IsApart at) (zoom (λ t. t.nids) (λ n t. record t { nids = n }) generate_nid)
  Preserves-numbers at = record { keeps = λ t i. i }

  insert_by_side-IsSound :
      (at : ℕ) (b : Bool) (o : Order N) (t : Trader N)
      → IsSound t
      → lookup at t.orders ≡ some o
      → IsComplete (if b then Side.buy else Side.sell) o
      → IsSound (insert_by_side (some (if b then Side.buy else Side.sell)) at t)
  insert_by_side-IsSound at true o t q e k = record {
    buys = All-multiset_insert (Booked t.orders Side.buy) at t.raw_buyside (o, e, k) q.buys;
    sells = q.sells;
    reports = q.reports;
    buys_sorted = multiset_insert-IsSorted at t.raw_buyside q.buys_sorted;
    sells_sorted = q.sells_sorted;
  }
  insert_by_side-IsSound at false o t q e k = record {
    buys = q.buys;
    sells = All-multiset_insert (Booked t.orders Side.sell) at t.raw_sellside (o, e, k) q.sells;
    reports = q.reports;
    buys_sorted = q.buys_sorted;
    sells_sorted = multiset_insert-IsSorted at t.raw_sellside q.sells_sorted;
  }

module _ {N : Type 0} (P : Platform N) where
  abbrev judged : Request N → OrderStatus → Order N
  judged r status = record (order_of r) { status = some status }

  abbrev numbered : Request N → OrderStatus → ℤ → Order N
  numbered r status serial = record (judged r status) { client_serial_num = some serial }

  numbered-IsComplete :
      (r : Request N) (status : OrderStatus) (serial : ℤ)
      → IsComplete
          (if text_eq r.side_text (codes "1") then Side.buy else Side.sell)
          (numbered r status serial)
  numbered-IsComplete r status serial = record {
    price = r.price;
    conn = r.conn;
    serial = serial;
    has_price = refl;
    has_conn = refl;
    has_serial = refl;
    has_side = refl;
  }

  abbrev Written : ℕ → Order N → Trader N → Type 0
  Written at o t = IsApart at t × (lookup at t.orders ≡ some o)

  place_order-Triple :
      (at : ℕ) (r : Request N) (status : OrderStatus)
      → Triple (IsApart at) (λ _. IsSound) IsSound (place_order P at (judged r status) r)
  unfolding place_order order_data_insert
  place_order-Triple at r status =
      Triple-Preserves (Preserves-numbers at) (λ _ i. i.0)
        λ serial.
          Triple-bind (λ _. Written at (numbered r status serial))
            (Triple-modify
              (λ t. record t { orders = assign at (numbered r status serial) t.orders })
              λ t i. (
                (
                  Sound-assign_free t.orders (holdings t) at (numbered r status serial) i.1 i.0,
                  i.1,
                ),
                lookup-assign_any at (numbered r status serial) t.orders,
              ))
            λ _.
              Triple-Preserves
                (Preserves-modify (λ t. record t { side_flag = some (side_of_int r.side_number) })
                  (λ t i. i))
                (λ _ i. i.0.0)
                λ _.
                  Triple-bind (λ _. IsSound)
                    (Triple-modify (insert_by_side (judged r status).side at) λ t i.
                      insert_by_side-IsSound at (text_eq r.side_text (codes "1"))
                        (numbered r status serial) t i.0.0 i.1
                        (numbered-IsComplete r status serial))
                    λ _.
                      Triple-last
                        (Preserves->>=
                          (Preserves-on_server Sound (insert_order_to_db P (data_of r serial)))
                          λ stored.
                            Preserves-if stored
                              (Preserves-on_server Sound
                                (send_to_client P r.conn (r.nid ++ codes "|success")))
                              (Preserves-on_server Sound
                                (send_to_client P r.conn (r.nid ++ codes "|failed, repeat nid"))))
                        (λ _ _ i. i) (λ _ i. i)

  -- A call of the server at the end.
  answered :
      (at : ℕ) (conn : ℤ) (text : Text)
      → Triple (IsApart at) (λ _. IsSound) IsSound (on_server (send_to_client P conn text))
  answered at conn text =
      Triple-last (Preserves-on_server (Apart at) (send_to_client P conn text)) (λ _ _ i. i.0)
        (λ _ i. i.0)

  covered :
      (at : ℕ) (r : Request N) (status : OrderStatus) (b : Bool)
      → Triple
          (IsApart at)
          (λ _. IsSound)
          IsSound
          (if b
            then place_order P at (judged r status) r
            else answer P r (codes "|failed, Insufficient balance"))
  covered at r status true = place_order-Triple at r status
  covered at r status false = answered at r.conn (r.nid ++ codes "|failed, Insufficient balance")

  settle_order-Triple :
      (at : ℕ) (r : Request N) (status : OrderStatus)
      → Triple (IsApart at) (λ _. IsSound) IsSound (settle_order P at (judged r status) r status)
  unfolding settle_order
  settle_order-Triple at r OrderStatus.verified =
      Triple-Preserves (Preserves-on_server (Apart at) (balance_of r.conn)) (λ _ i. i.0)
        λ balance. covered at r OrderStatus.verified (P.lt (P.mul r.price P.lot) balance)
  settle_order-Triple at r OrderStatus.failed = answered at r.conn (r.nid ++ codes "|failed")
  settle_order-Triple at r OrderStatus.none = answered at r.conn (r.nid ++ codes "|failed")

  pub Preserves-read_request :
      (I : Trader N → Type 0) (res : List Text) → Preserves I (read_request P res)
  unfolding read_request
  Preserves-read_request I res = search preserve_rules depth 12

  judge-Preserves :
      (at : ℕ) (r : Request N)
      → Preserves
          (IsApart {N = N} at)
          (λ t. (verify P.floats t.product_list t.trade_basic_data r.price r.symbol, t))
  judge-Preserves at r = record { keeps = λ t i. i }

  handle_order-Triple :
      (at : ℕ) (msg : Text) → Triple (IsApart at) (λ _. IsSound) IsSound (handle_order P at msg)
  unfolding handle_order book_request
  handle_order-Triple at msg =
      Triple-Preserves (Preserves-modify (λ t. record t { od = some at }) (λ t i. i)) (λ _ i. i.0)
        λ _.
          Triple-Preserves (Preserves-put_order at blank_order) (λ _ i. i.0)
            λ _.
              Triple-Preserves (Preserves-read_request (IsApart at) (split msg bar)) (λ _ i. i.0)
                λ r.
                  Triple-Preserves (Preserves-put_order at (order_of r)) (λ _ i. i.0)
                    λ _.
                      Triple-Preserves (judge-Preserves at r) (λ _ i. i.0)
                        λ status.
                          Triple-Preserves (Preserves-put_order at (judged r status)) (λ _ i. i.0)
                            λ _. settle_order-Triple at r status

unheld-All : (at : ℕ) (xs : List ℕ) → count at xs ≡ 0 → All (λ a. a ≢ at) xs
unheld-All at [] e = tt
unheld-All at (x ∷ xs) e = ground (arith, unheld-All at xs)

module _ {N : Type 0} (P : Platform N) where
  polled :
      (at : ℕ) (b : Bool)
      → Triple
          (IsApart at)
          (λ _. IsSound)
          IsSound
          (if b
            then (on_server (zoom (λ s. s.dq) (λ q s. record s { dq = q }) pop_dta) >>= λ msg.
                handle_order P at msg)
            else pure tt)
  polled at true =
      Triple-Preserves
        (Preserves-on_server (Apart at) (zoom (λ s. s.dq) (λ q s. record s { dq = q }) pop_dta))
        (λ _ i. i.0) λ msg. handle_order-Triple P at msg
  polled at false = Triple-last (Preserves-pure tt) (λ _ _ i. i.0) (λ _ i. i.0)

  get_order-Triple : (at : ℕ) → Triple (IsApart at) (λ _. IsSound) IsSound (get_order P at)
  unfolding get_order
  get_order-Triple at =
      Triple-Preserves (Preserves-gets (λ t. t)) (λ _ i. i.0)
        λ t. polled at (ltb 0 (check_space t.sr.dq))

  -- A round of the order thread, at an address that nothing holds.
  pub get_order-IsSound :
      (at : ℕ) (t : Trader N) → total at (holdings t) ≡ 0 → IsSound t → IsSound (get_order P at t).1
  get_order-IsSound at t fresh q = Triple-out (get_order-Triple at) t (
    q,
    (
      unheld-All at t.raw_buyside (omega arith),
      unheld-All at t.raw_sellside (omega arith),
      unheld-All at t.report_list (omega arith),
    ),
  )
