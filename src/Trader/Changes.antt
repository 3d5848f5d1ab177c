-- ===== src/Trader/Changes.antt =====
-- `Trader::getCancelOrder`: one message of the queue of cancellations and changes.
pub mod Effects
pub mod Answers
pub mod Told
use inertia_trader.Common.{
  ℕ, Bool, true, false, Option, none, some, List, [], ◌∷◌, ◌++◌, Text, codes, text_eq, get_elem?,
  if◌then◌else◌, ltb,
}
use inertia_trader.Common.Int.{ℤ}
use inertia_trader.Common.Decimal.{stoi}
use inertia_trader.Common.Map.{lookup, assign, nat_key}
use inertia_trader.Common.Action.{
  Action, Outcome, ok, fault, throws, ◌>>=◌, ◌>>◌, pure, or_fault, or_throw, gets, modify, zoom,
}
use inertia_trader.Platform.{Platform}
use inertia_trader.Funclib.Split.{split, bar}
use inertia_trader.Funclib.DataQueue.{pop_dta, check_space}
use inertia_trader.Database.{update_order_situation, update_order_price}
use inertia_trader.Server.{on_history, send_to_client}
use inertia_trader.Trader.{Order, Trader, on_server, order_at, put_order}
use inertia_trader.Trader.Books.{find_nid}

module _ {N : Type 0} (P : Platform N) where
  -- `sr->sendToClient(std::stoi(res[7]), res[1] + text)`
  unfoldable pub reply : List Text → Text → Action (Trader N) (Unit {0})
  reply res text = do
    conn_text ← or_fault (get_elem? res 7)
    conn ← or_throw (stoi conn_text)
    nid ← or_fault (get_elem? res 1)
    on_server (send_to_client P conn (nid ++ text))

  abbrev pub search_book :
      Text → (Trader N → List ℕ) → Action (Trader N) (Option (List ℕ × ℕ × List ℕ))
  search_book nid book t = (find_nid nid t (book t), t)

  -- `case 88` for the book that the side names.
  unfoldable pub cancel_in :
      (Trader N → List ℕ)
      → (List ℕ → Trader N → Trader N)
      → List Text
      → Action (Trader N) (Unit {0})
  cancel_in book put res = do
    nid ← or_fault (get_elem? res 1)
    found ← search_book nid book
    elim found [
      | none ↦ reply res (codes "|no this order")
      | some (front, a, rest) ↦ do
        modify (put (front ++ rest))
        reply res (codes "|cancel order success")
        on_server (on_history (update_order_situation P nid (codes "3")))
        pure tt
    ]

  unfoldable pub cancel_order : List Text → Action (Trader N) (Unit {0})
  cancel_order res = do
    side ← or_fault (get_elem? res 3)
    if text_eq side (codes "1")
        then cancel_in (λ t. t.buyside) (λ addrs t. record t { buyside = addrs }) res
        else if text_eq side (codes "2")
        then cancel_in (λ t. t.sellside) (λ addrs t. record t { sellside = addrs }) res
        else reply res (codes "|cancel order error")

  -- The change of a price through an iterator of `buyside_`; `none` is its end.
  unfoldable pub set_price : Text → Option ℕ → List Text → Action (Trader N) (Unit {0})
  set_price nid it res = do
    a ← or_fault it
    price_text ← or_fault (get_elem? res 2)
    price ← or_throw (P.stod price_text)
    o ← order_at a
    put_order a (record o { order_price = some price })
    reply res (codes "|modify order success")
    on_server (on_history (update_order_price P nid price_text))
    pure tt

  abbrev pub address_of : Option (List ℕ × ℕ × List ℕ) → Option ℕ
  address_of none = none
  address_of (some (front, a, rest)) = some a

  -- `it` is an iterator of `buyside_` on both sides. On the sell side it is compared with the end
  -- of `sellside_`, and the platform says what that gives.
  unfoldable pub modify_order : List Text → Action (Trader N) (Unit {0})
  modify_order res = do
    nid ← or_fault (get_elem? res 1)
    found ← search_book nid (λ t. t.buyside)
    side ← or_fault (get_elem? res 3)
    if text_eq side (codes "1")
        then (elim (address_of found) [
          | none ↦ reply res (codes "|no this order, modify failed")
          | some a ↦ set_price nid (some a) res
        ])
        else if P.foreign_end
        then reply res (codes "|no this order, modify failed")
        else set_price nid (address_of found) res

  unfoldable pub handle_change : Text → Action (Trader N) (Unit {0})
  handle_change msg = do
    let res = split msg bar
    code ← or_fault (get_elem? res 0)
    if text_eq code (codes "88") then cancel_order res else modify_order res

  -- One round of the loop.
  unfoldable pub get_cancel_order : Action (Trader N) (Unit {0})
  get_cancel_order = do
    t ← gets (λ t. t)
    if ltb 0 (check_space t.sr.dq_orderhandle)
        then (do
          msg ←
              on_server
                (zoom (λ s. s.dq_orderhandle) (λ q s. record s { dq_orderhandle = q }) pop_dta)
          handle_change msg)
        else pure tt
