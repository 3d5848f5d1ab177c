-- ===== src/Trader/Holdings/Changes.antt =====
-- Cancellations and changes look into the loaded books only.
use inertia_trader.Common.{
  ℕ, ◌≡◌, refl, Option, none, some, List, ◌++◌, Text, codes, text_eq, get_elem?, ltb,
}
use inertia_trader.Common.Action.{Action, ◌>>◌, pure, modify, zoom}
use inertia_trader.Common.Action.Post.{Keeps, Keeps->>=, Keeps-or_fault, Keeps-or_throw, Keeps-if}
use inertia_trader.Platform.{Platform}
use inertia_trader.Funclib.Split.{split, bar}
use inertia_trader.Funclib.DataQueue.{pop_dta, check_space}
use inertia_trader.Database.{update_order_situation, update_order_price}
use inertia_trader.Server.{on_history}
use inertia_trader.Trader.{Trader, on_server}
use inertia_trader.Trader.Changes.{
  reply, search_book, cancel_in, cancel_order, set_price, modify_order, handle_change,
  get_cancel_order, address_of,
}
use inertia_trader.Trader.Holdings.{holdings, Keeps-on_server, Keeps-put_order}
use inertia_trader.Trader.Holdings.Quiet.{
  Keeps-reply, Keeps-pure, Keeps-modify, Keeps-gets, Keeps-order_at,
}

module _ {N : Type 0} (P : Platform N) where
  Keeps-search_book :
      (nid : Text) (book : Trader N → List ℕ) → Keeps holdings (search_book P nid book)
  unfolding Keeps
  Keeps-search_book nid book t = refl

  Keeps-cancel_in :
      (book : Trader N → List ℕ) (put : List ℕ → Trader N → Trader N) (res : List Text)
      → ((addrs : List ℕ) (t : Trader N) → holdings (put addrs t) ≡ holdings t)
      → Keeps holdings (cancel_in P book put res)
  unfolding cancel_in
  Keeps-cancel_in book put res keeps =
      Keeps->>= holdings _ _ (Keeps-or_fault holdings (get_elem? res 1))
        λ nid. Keeps->>= holdings _ _ (Keeps-search_book nid book) λ found. taken nid found
    where
      taken :
          (nid : Text) (found : Option (List ℕ × ℕ × List ℕ))
          → Keeps holdings (elim found [
            | none ↦ reply P res (codes "|no this order")
            | some (front, a, rest) ↦
                modify (put (front ++ rest))
                >> (reply P res (codes "|cancel order success")
                    >> (on_server (on_history (update_order_situation P nid (codes "3")))
                        >> pure tt))
          ])
      taken nid none = Keeps-reply P res (codes "|no this order")
      taken nid (some (front, a, rest)) =
          let told : Action (Trader N) (Unit {0}) =
            on_server (on_history (update_order_situation P nid (codes "3"))) >> pure tt in
          let answered : Action (Trader N) (Unit {0}) =
            reply P res (codes "|cancel order success") >> told in
          Keeps->>= holdings (modify (put (front ++ rest))) (λ _. answered)
            (Keeps-modify P (put (front ++ rest)) (keeps (front ++ rest)))
            λ _.
              Keeps->>= holdings (reply P res (codes "|cancel order success")) (λ _. told)
                (Keeps-reply P res (codes "|cancel order success"))
                λ _.
                  Keeps->>= holdings
                    (on_server (on_history (update_order_situation P nid (codes "3"))))
                    (λ _. pure tt)
                    (Keeps-on_server (on_history (update_order_situation P nid (codes "3"))))
                    λ _. Keeps-pure P tt

  Keeps-cancel_order : (res : List Text) → Keeps holdings (cancel_order P res)
  unfolding cancel_order
  Keeps-cancel_order res =
      Keeps->>= holdings _ _ (Keeps-or_fault holdings (get_elem? res 3)) λ side.
        Keeps-if holdings (text_eq side (codes "1")) _ _
          (Keeps-cancel_in (λ t. t.buyside) (λ addrs t. record t { buyside = addrs }) res
            (λ _ _. refl))
          (Keeps-if holdings (text_eq side (codes "2")) _ _
            (Keeps-cancel_in (λ t. t.sellside) (λ addrs t. record t { sellside = addrs }) res
              (λ _ _. refl))
            (Keeps-reply P res (codes "|cancel order error")))

  Keeps-set_price :
      (nid : Text) (it : Option ℕ) (res : List Text) → Keeps holdings (set_price P nid it res)
  unfolding set_price
  Keeps-set_price nid it res = Keeps->>= holdings _ _ (Keeps-or_fault holdings it) λ a.
      Keeps->>= holdings _ _ (Keeps-or_fault holdings (get_elem? res 2)) λ price_text.
        Keeps->>= holdings _ _ (Keeps-or_throw holdings (P.stod price_text)) λ price.
          Keeps->>= holdings _ _ (Keeps-order_at P a) λ o.
            Keeps->>= holdings _ _ (Keeps-put_order a (record o { order_price = some price })) λ _.
              Keeps->>= holdings _ _ (Keeps-reply P res (codes "|modify order success")) λ _.
                Keeps->>= holdings _ _
                  (Keeps-on_server (on_history (update_order_price P nid price_text)))
                  λ _. Keeps-pure P tt

  Keeps-modify_order : (res : List Text) → Keeps holdings (modify_order P res)
  unfolding modify_order
  Keeps-modify_order res = Keeps->>= holdings _ _ (Keeps-or_fault holdings (get_elem? res 1)) λ nid.
      Keeps->>= holdings _ _ (Keeps-search_book nid (λ t. t.buyside)) λ found.
        Keeps->>= holdings _ _ (Keeps-or_fault holdings (get_elem? res 3)) λ side.
          Keeps-if holdings (text_eq side (codes "1")) _ _ (found_buy nid (address_of P found)) (
            Keeps-if holdings P.foreign_end _ _
              (Keeps-reply P res (codes "|no this order, modify failed"))
              (Keeps-set_price nid (address_of P found) res))
    where
      found_buy :
          (nid : Text) (it : Option ℕ)
          → Keeps holdings (elim it [
            | none ↦ reply P res (codes "|no this order, modify failed")
            | some a ↦ set_price P nid (some a) res
          ])
      found_buy nid none = Keeps-reply P res (codes "|no this order, modify failed")
      found_buy nid (some a) = Keeps-set_price nid (some a) res

  Keeps-get_cancel_order : Keeps holdings (get_cancel_order P)
  unfolding get_cancel_order handle_change
  Keeps-get_cancel_order = Keeps->>= holdings _ _ (Keeps-gets P (λ t. t)) λ t.
      Keeps-if holdings (ltb 0 (check_space t.sr.dq_orderhandle)) _ _
        (Keeps->>= holdings _ _
          (Keeps-on_server
            (zoom (λ s. s.dq_orderhandle) (λ q s. record s { dq_orderhandle = q }) pop_dta))
          λ msg.
            Keeps->>= holdings _ _ (Keeps-or_fault holdings (get_elem? (split msg bar) 0)) λ code.
              Keeps-if holdings (text_eq code (codes "88")) _ _ (Keeps-cancel_order (split msg bar))
                (Keeps-modify_order (split msg bar)))
        (Keeps-pure P tt)

  -- No round of the thread of the changes, whatever its message and its end, moves an order of the raw
  -- books or of the list of the reports.
  pub get_cancel_order-holdings : (t : Trader N) → holdings (get_cancel_order P t).1 ≡ holdings t
  unfolding Keeps
  get_cancel_order-holdings t = Keeps-get_cancel_order t
