-- ===== src/Trader/Holdings/Booking.antt =====
-- A round of `getOrder` puts its own order into one raw book, once, or into none.
use inertia_trader.Common.{
  ℕ, ◌+◌, ◌≤◌, ◌≡◌, refl, sym, ap, ◌∙◌, subst, Bool, true, false, Option, none, some, [], ◌∷◌, ◌++◌,
  Text, codes, arith, if◌then◌else◌, ltb,
}
use inertia_trader.Common.Int.{ℤ}
use inertia_trader.Common.Action.{Action, ok, fault, ◌>>=◌, pure, modify, zoom}
use inertia_trader.Common.Action.Post.{
  Post, Post-bind, any-Post, Post-any, Keeps, Keeps-Post, Keeps->>=, Keeps-if,
}
use inertia_trader.Platform.{Platform}
use inertia_trader.Types.{Side, OrderStatus}
use inertia_trader.Funclib.Split.{split, bar}
use inertia_trader.Funclib.DataQueue.{pop_dta, check_space}
use inertia_trader.Server.{send_to_client, insert_order_to_db}
use inertia_trader.Trader.{Order, Trader, on_server, put_order, blank_order}
use inertia_trader.Trader.Nid.{generate_nid}
use inertia_trader.Trader.Risk.{verify}
use inertia_trader.Trader.Books.{order_data_insert, insert_by_side}
use inertia_trader.Trader.Books.Sorted.{count, count-multiset_insert}
use inertia_trader.Trader.Orders.{
  Request, answer, data_of, place_order, settle_order, book_request, handle_order, get_order,
  order_of, balance_of, side_of_int,
}
use inertia_trader.Trader.Holdings.{Holdings, holdings, total, Keeps-on_server, Keeps-put_order}
use inertia_trader.Trader.Holdings.Quiet.{Keeps-modify, Keeps-read_request}
use inertia_trader.Trader.Holdings.Trading.{count-append}

-- This address is held once more at most, and no other one more often than before.
abbrev pub Grown : ℕ → Holdings → Holdings → Type 0
Grown at h x = (c : ℕ) → total c x ≤ total c h + count c (at ∷ [])

module _ {N : Type 0} (P : Platform N) where
  insert_by_side-Grown :
      (s : Side) (at : ℕ) (t : Trader N)
      → Grown at (holdings t) (holdings (insert_by_side (some s) at t))
  insert_by_side-Grown Side.buy at t c =
      omega
        (arith, count-multiset_insert c at t.raw_buyside, count-append c (at ∷ []) t.raw_buyside)
  insert_by_side-Grown Side.sell at t c =
      omega
        (arith, count-multiset_insert c at t.raw_sellside, count-append c (at ∷ []) t.raw_sellside)
  insert_by_side-Grown Side.none at t c =
      omega
        (arith, count-multiset_insert c at t.raw_sellside, count-append c (at ∷ []) t.raw_sellside)

  abbrev insert_with : ℕ → Option Side → Action (Trader N) (Unit {0})
  insert_with at side t = elim side [
    | none ↦ (fault, t)
    | some s ↦ (ok tt, insert_by_side (some s) at t)
  ]

  insert_with-Post :
      (at : ℕ) (side : Option Side) (t : Trader N) (h : Holdings)
      → holdings t ≡ h
      → Post holdings (Grown at h) (Grown at h) (insert_with at side t)
  insert_with-Post at none t h e = λ c. omega (arith, ap (total c) e)
  insert_with-Post at (some s) t h e =
      subst (λ h. Grown at h (holdings (insert_with at (some s) t).1)) e
        (insert_by_side-Grown s at t)

  Keeps-judge :
      (r : Request N)
      → Keeps
          (holdings {N = N})
          (λ t. (verify P.floats t.product_list t.trade_basic_data r.price r.symbol, t))
  unfolding Keeps
  Keeps-judge r t = refl

  -- Behind the insertion nothing moves.
  stored-Keeps :
      (r : Request N) (serial : ℤ)
      → Keeps holdings (
          on_server (insert_order_to_db P (data_of r serial)) >>= λ stored.
          if stored
          then answer P r (codes "|success")
          else answer P r (codes "|failed, repeat nid"))
  stored-Keeps r serial =
      Keeps->>= holdings (on_server (insert_order_to_db P (data_of r serial))) _
        (Keeps-on_server (insert_order_to_db P (data_of r serial)))
        λ stored.
          Keeps-if holdings stored _ _
            (Keeps-on_server (send_to_client P r.conn (r.nid ++ codes "|success")))
            (Keeps-on_server (send_to_client P r.conn (r.nid ++ codes "|failed, repeat nid")))

  unmoved :
      {A : Type 0} (at : ℕ) (h : Holdings) (m : Action (Trader N) A) (t : Trader N)
      → Keeps holdings m
      → holdings t ≡ h
      → Post holdings (Grown at h) (Grown at h) (m t)
  unfolding Keeps
  unmoved at h m t keeps e =
      Post-any holdings (Grown at h) (m t) λ c. omega (arith, ap (total c) (keeps t ∙ e))

  place_order-Post :
      (at : ℕ) (o : Order N) (r : Request N) (t : Trader N) (h : Holdings)
      → holdings t ≡ h
      → Post holdings (Grown at h) (Grown at h) (place_order P at o r t)
  unfolding place_order order_data_insert Keeps
  place_order-Post at o r t h e =
      let G = Grown at h in
      let same : G h = λ c. omega arith in
      Keeps-Post holdings G G h (zoom (λ t. t.nids) (λ n t. record t { nids = n }) generate_nid) _ t
        e (λ t. refl) same
        λ serial t1 e1.
          Keeps-Post holdings G G h (put_order at (record o { client_serial_num = some serial })) _
            t1 e1 (λ t. refl) same
            λ _ t2 e2.
              Keeps-Post holdings G G h
                (modify (λ t. record t { side_flag = some (side_of_int r.side_number) })) _ t2 e2
                (λ t. refl) same
                λ _ t3 e3.
                  Post-bind holdings G G G (order_data_insert at o)
                    (λ _. on_server (insert_order_to_db P (data_of r serial)) >>= λ stored.
                      if stored
                      then answer P r (codes "|success")
                      else answer P r (codes "|failed, repeat nid"))
                    t3 (insert_with-Post at o.side t3 h e3)
                    λ _ t4 g. Post-any holdings G _ (subst G (sym (stored-Keeps r serial t4)) g)

  settle_order-Post :
      (at : ℕ) (o : Order N) (r : Request N) (status : OrderStatus) (t : Trader N) (h : Holdings)
      → holdings t ≡ h
      → Post holdings (Grown at h) (Grown at h) (settle_order P at o r status t)
  unfolding settle_order
  settle_order-Post at o r OrderStatus.verified t h e =
      Keeps-Post holdings (Grown at h) (Grown at h) h (on_server (balance_of r.conn)) _ t e
        (Keeps-on_server (balance_of r.conn)) (λ c. omega arith)
        λ balance t1 e1. covered (P.lt (P.mul r.price P.lot) balance) t1 e1
    where
      covered :
          (b : Bool) (t1 : Trader N)
          → holdings t1 ≡ h
          → Post holdings (Grown at h) (Grown at h) (
              (if b
                  then place_order P at o r
                  else answer P r (codes "|failed, Insufficient balance"))
                t1)
      covered true t1 e1 = place_order-Post at o r t1 h e1
      covered false t1 e1 =
          unmoved at h (answer P r (codes "|failed, Insufficient balance")) t1
            (Keeps-on_server
              (send_to_client P r.conn (r.nid ++ codes "|failed, Insufficient balance")))
            e1
  settle_order-Post at o r OrderStatus.failed t h e =
      unmoved at h (answer P r (codes "|failed")) t
        (Keeps-on_server (send_to_client P r.conn (r.nid ++ codes "|failed"))) e
  settle_order-Post at o r OrderStatus.none t h e =
      unmoved at h (answer P r (codes "|failed")) t
        (Keeps-on_server (send_to_client P r.conn (r.nid ++ codes "|failed"))) e

  handle_order-Post :
      (at : ℕ) (msg : Text) (t : Trader N) (h : Holdings)
      → holdings t ≡ h
      → Post holdings (Grown at h) (Grown at h) (handle_order P at msg t)
  unfolding handle_order book_request
  handle_order-Post at msg t h e =
      let G = Grown at h in
      let same : G h = λ c. omega arith in
      Keeps-Post holdings G G h (modify (λ t. record t { od = some at })) _ t e
        (Keeps-modify P _ (λ t. refl)) same
        λ _ t1 e1.
          Keeps-Post holdings G G h _ _ t1 e1 (Keeps-put_order at blank_order) same λ _ t2 e2.
            Keeps-Post holdings G G h _ _ t2 e2 (Keeps-read_request P (split msg bar)) same
              λ r t3 e3.
                Keeps-Post holdings G G h _ _ t3 e3 (Keeps-put_order at (order_of r)) same
                  λ _ t4 e4.
                    Keeps-Post holdings G G h _ _ t4 e4 (Keeps-judge r) same λ status t5 e5.
                      Keeps-Post holdings G G h _ _ t5 e5
                        (Keeps-put_order at (record (order_of r) { status = some status })) same
                        λ _ t6 e6.
                          settle_order-Post at (record (order_of r) { status = some status }) r
                            status t6 h e6

  -- A round of the order thread.
  pub get_order-Grown :
      (at : ℕ) (t : Trader N) → Grown at (holdings t) (holdings (get_order P at t).1)
  unfolding get_order
  get_order-Grown at t = waiting (ltb 0 (check_space t.sr.dq))
    where
      waiting :
          (b : Bool)
          → Grown at (holdings t) (
              holdings
                ((if b
                    then (on_server (zoom (λ s. s.dq) (λ q s. record s { dq = q }) pop_dta)
                        >>= λ msg. handle_order P at msg)
                    else pure tt)
                  t).1)
      waiting true =
          let G = Grown at (holdings t) in
          any-Post holdings G _ (
            Keeps-Post holdings G G (holdings t)
              (on_server (zoom (λ s. s.dq) (λ q s. record s { dq = q }) pop_dta))
              (λ msg. handle_order P at msg) t refl
              (Keeps-on_server (zoom (λ s. s.dq) (λ q s. record s { dq = q }) pop_dta))
              (λ c. omega arith) λ msg t1 e1. handle_order-Post at msg t1 (holdings t) e1)
      waiting false = λ c. omega arith
