-- ===== src/Trader/Integrity/Changes.antt =====
-- Cancellations and changes leave the orders of the raw books complete.
use inertia_trader.Common.{
  ℕ, ◌≡◌, refl, Option, none, some, List, ◌++◌, Text, codes, text_eq, get_elem?,
}
use inertia_trader.Common.Action.{Action, ◌>>◌, pure, modify}
use inertia_trader.Common.Action.Triple.{
  Triple, Preserves, Triple-bind, Triple-last, Triple-modify, Triple-found, Preserves-Triple,
  Preserves->>=, Preserves-or_fault, Preserves-or_throw, Preserves-modify, Preserves-pure,
  Preserves-if, preserve_rules,
}
use inertia_trader.Common.Map.{lookup, assign, nat_key}
use inertia_trader.Platform.{Platform}
use inertia_trader.Database.{update_order_situation, update_order_price}
use inertia_trader.Server.{Server, on_history}
use inertia_trader.Trader.{Order, Trader, on_server, order_at}
use inertia_trader.Trader.Changes.{
  reply, search_book, cancel_in, cancel_order, set_price, modify_order, handle_change,
  get_cancel_order, address_of,
}
use inertia_trader.Trader.Holdings.{holdings}
use inertia_trader.Trader.Integrity.{Sound, IsSound, Improves, Sound-assign}
use inertia_trader.Trader.Integrity.Booking.{Preserves-on_server}

module _ {N : Type 0} where
  priced-Improves : (o : Order N) (price : N) → Improves o (record o { order_price = some price })
  priced-Improves o price = record {
    complete = λ s k. record {
      price = price;
      conn = k.conn;
      serial = k.serial;
      has_price = refl;
      has_conn = k.has_conn;
      has_serial = k.has_serial;
      has_side = k.has_side;
    };
    executed = λ x e. (x, e);
  }

  -- The order behind a pointer, which is on the heap.
  pub Triple-order_at :
      (I : Trader N → Type 0) (a : ℕ)
      → Triple I (λ o t. I t × (lookup a t.orders ≡ some o)) I (order_at a)
  Triple-order_at I a = Triple-found (λ t. lookup a t.orders)

  pub Preserves-order_at : (I : Trader N → Type 0) (a : ℕ) → Preserves I (order_at a)
  Preserves-order_at I a = record {
    keeps = λ t i. (Preserves-or_fault {I = I} (lookup a t.orders)).keeps t i;
  }

  Preserves-sound : {A : Type 0} (m : Action (Server N) A) → Preserves IsSound (on_server m)
  Preserves-sound m = Preserves-on_server Sound m

module _ {N : Type 0} (P : Platform N) where
  Preserves-reply : (res : List Text) (text : Text) → Preserves IsSound (reply P res text)
  unfolding reply
  Preserves-reply res text = search (preserve_rules, Preserves-sound) depth 12

  Preserves-search_book :
      (nid : Text) (book : Trader N → List ℕ) → Preserves IsSound (search_book P nid book)
  Preserves-search_book nid book = record { keeps = λ t i. i }

  set_price-IsSound :
      (nid : Text) (it : Option ℕ) (res : List Text) → Preserves IsSound (set_price P nid it res)
  unfolding set_price
  set_price-IsSound nid it res = Preserves->>= (Preserves-or_fault it) λ a.
      Preserves->>= (Preserves-or_fault (get_elem? res 2)) λ price_text.
        Preserves->>= (Preserves-or_throw (P.stod price_text)) λ price. Preserves-Triple (
          Triple-bind (λ o t. IsSound t × (lookup a t.orders ≡ some o)) (Triple-order_at IsSound a)
            λ o.
              Triple-bind (λ _. IsSound)
                (Triple-modify
                  (λ t. record t {
                    orders = assign a (record o { order_price = some price }) t.orders;
                  })
                  λ t i.
                    Sound-assign t.orders (holdings t) a o (record o { order_price = some price })
                      i.1 (priced-Improves o price) i.0)
                λ _.
                  Triple-last
                    (Preserves->>= (Preserves-reply res (codes "|modify order success")) λ _.
                      Preserves->>=
                        (Preserves-sound (on_history (update_order_price P nid price_text)))
                        λ _. Preserves-pure tt)
                    (λ _ _ i. i) (λ _ i. i))

  Preserves-cancel_in :
      (book : Trader N → List ℕ) (put : List ℕ → Trader N → Trader N) (res : List Text)
      → ((addrs : List ℕ) (t : Trader N) → IsSound t → IsSound (put addrs t))
      → Preserves IsSound (cancel_in P book put res)
  unfolding cancel_in
  Preserves-cancel_in book put res keeps =
      Preserves->>= (Preserves-or_fault (get_elem? res 1))
        λ nid. Preserves->>= (Preserves-search_book nid book) λ found. taken nid found
    where
      taken :
          (nid : Text) (found : Option (List ℕ × ℕ × List ℕ))
          → Preserves IsSound (elim found [
            | none ↦ reply P res (codes "|no this order")
            | some (front, a, rest) ↦
                modify (put (front ++ rest))
                >> (reply P res (codes "|cancel order success")
                    >> (on_server (on_history (update_order_situation P nid (codes "3")))
                        >> pure tt))
          ])
      taken nid none = Preserves-reply res (codes "|no this order")
      taken nid (some (front, a, rest)) =
          Preserves->>= (Preserves-modify (put (front ++ rest)) (keeps (front ++ rest))) λ _.
            Preserves->>= (Preserves-reply res (codes "|cancel order success")) λ _.
              Preserves->>=
                (Preserves-sound (on_history (update_order_situation P nid (codes "3"))))
                λ _. Preserves-pure tt

  Preserves-cancel_order : (res : List Text) → Preserves IsSound (cancel_order P res)
  unfolding cancel_order
  Preserves-cancel_order res = Preserves->>= (Preserves-or_fault (get_elem? res 3)) λ side.
      Preserves-if (text_eq side (codes "1"))
        (Preserves-cancel_in (λ t. t.buyside) (λ addrs t. record t { buyside = addrs }) res
          (λ _ _ i. i))
        (Preserves-if (text_eq side (codes "2"))
          (Preserves-cancel_in (λ t. t.sellside) (λ addrs t. record t { sellside = addrs }) res
            (λ _ _ i. i))
          (Preserves-reply res (codes "|cancel order error")))

  Preserves-modify_order : (res : List Text) → Preserves IsSound (modify_order P res)
  unfolding modify_order
  Preserves-modify_order res = Preserves->>= (Preserves-or_fault (get_elem? res 1)) λ nid.
      Preserves->>= (Preserves-search_book nid (λ t. t.buyside)) λ found.
        Preserves->>= (Preserves-or_fault (get_elem? res 3)) λ side.
          Preserves-if (text_eq side (codes "1")) (found_buy nid (address_of P found)) (
            Preserves-if P.foreign_end (Preserves-reply res (codes "|no this order, modify failed"))
              (set_price-IsSound nid (address_of P found) res))
    where
      found_buy :
          (nid : Text) (it : Option ℕ)
          → Preserves IsSound (elim it [
            | none ↦ reply P res (codes "|no this order, modify failed")
            | some a ↦ set_price P nid (some a) res
          ])
      found_buy nid none = Preserves-reply res (codes "|no this order, modify failed")
      found_buy nid (some a) = set_price-IsSound nid (some a) res

  pub Preserves-get_cancel_order : Preserves IsSound (get_cancel_order P)
  unfolding get_cancel_order handle_change
  Preserves-get_cancel_order =
      search (preserve_rules, Preserves-sound, Preserves-cancel_order, Preserves-modify_order) depth
        16
