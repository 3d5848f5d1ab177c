-- ===== src/Trader/Changes/Told.antt =====
-- Cancellations and changes as a whole: the book, the client and the database.
use inertia_trader.Common.{
  ℕ, ◌≡◌, ◌∙◌, Bool, true, false, some, List, ◌∷◌, ◌++◌, Text, text_eq, All, get_elem?, codes,
  if◌then◌else◌,
}
use inertia_trader.Common.Int.{ℤ}
use inertia_trader.Common.Map.{lookup, int_key, nat_key}
use inertia_trader.Common.Action.Laws.{or_fault->>=}
use inertia_trader.Platform.{Platform}
use inertia_trader.Database.{
  update_order_situation, update_situation_query, update_order_price, update_price_query,
}
use inertia_trader.Trader.{Order, Trader}
use inertia_trader.Trader.Changes.{cancel_order, modify_order}
use inertia_trader.Trader.Changes.Effects.{Holds, repriced, cancel_in-found, modify_order-found}
use inertia_trader.Trader.Changes.Answers.{Names, heard, answer_and_tell-heard}

module _ {N : Type 0} (P : Platform N) where
  -- The book of a side, and the trader with another one.
  abbrev pub book_of : Bool → Trader N → List ℕ
  book_of buy t = if buy then t.buyside else t.sellside

  abbrev pub with_book : Bool → List ℕ → Trader N → Trader N
  with_book true book t = record t { buyside = book }
  with_book false book t = record t { sellside = book }

  abbrev pub side_code : Bool → Text
  side_code buy = if buy then codes "1" else codes "2"

  -- A cancellation, whose side names the buy book or the sell book, and whose book holds an order with
  -- its NID: the first such order is taken out of that book, the client is told that it is cancelled,
  -- and then the database. Where the connection is not stored, or its pointer is null or dangles, the
  -- order is gone as well, but behaviour is undefined and the database is told nothing.
  pub cancel_order-told :
      (buy : Bool) (res : List Text) (nid : Text) (conn : ℤ) (t : Trader N) (front : List ℕ) (a : ℕ)
      (rest : List ℕ)
      → Names res nid conn
      → get_elem? res 3 ≡ some (side_code buy)
      → book_of buy t ≡ front ++ a ∷ rest
      → Holds t nid true a
      → All (Holds t nid false) front
      → cancel_order P res t
        ≡ heard P conn
            ((nid ++ codes "|cancel order success") ++ codes "\n")
            (update_situation_query nid (codes "3"))
            (with_book buy (front ++ rest) t)
  unfolding cancel_order update_order_situation
  cancel_order-told true res nid conn t front a rest n side place hit before =
      rw (cancel_order, or_fault->>= _ t side)
        (cancel_in-found P (λ t. t.buyside) (λ addrs t. record t { buyside = addrs }) res nid t
            front a rest n.has_nid place hit before
          ∙ answer_and_tell-heard P res nid conn (codes "|cancel order success")
              (update_situation_query nid (codes "3")) (with_book true (front ++ rest) t) n)
  cancel_order-told false res nid conn t front a rest n side place hit before =
      rw (cancel_order, or_fault->>= _ t side)
        (cancel_in-found P (λ t. t.sellside) (λ addrs t. record t { sellside = addrs }) res nid t
            front a rest n.has_nid place hit before
          ∙ answer_and_tell-heard P res nid conn (codes "|cancel order success")
              (update_situation_query nid (codes "3")) (with_book false (front ++ rest) t) n)

  -- A change of an order with a price that can be read: where the buy book holds an order with its NID,
  -- the first such order gets the price, the client is told that it is changed, and then the database
  -- gets the text of the price. That is so whether the message names the buy side or another one, if an
  -- iterator of the buy book differs from the end of the sell book. Where the connection is not
  -- stored, or its pointer is null or dangles, the price is changed as well, but behaviour is undefined
  -- and the database is told nothing.
  pub modify_order-told :
      (res : List Text) (nid side price_text : Text) (price : N) (conn : ℤ) (t : Trader N)
      (front : List ℕ) (a : ℕ) (rest : List ℕ) (o : Order N)
      → Names res nid conn
      → get_elem? res 2 ≡ some price_text
      → get_elem? res 3 ≡ some side
      → P.stod price_text ≡ some price
      → t.buyside ≡ front ++ a ∷ rest
      → lookup a t.orders ≡ some o
      → text_eq o.nid nid ≡ true
      → All (Holds t nid false) front
      → P.foreign_end ≡ false
      → modify_order P res t
        ≡ heard P conn
            ((nid ++ codes "|modify order success") ++ codes "\n")
            (update_price_query nid price_text)
            (repriced P a o price t)
  unfolding update_order_price
  modify_order-told res nid side price_text price conn t front a rest o n e2 e3 reads place here hit
        before foreign =
      modify_order-found P res nid side price_text price t front a rest o n.has_nid e2 e3 reads
        place here hit before foreign
      ∙ answer_and_tell-heard P res nid conn (codes "|modify order success")
          (update_price_query nid price_text) (repriced P a o price t) n
