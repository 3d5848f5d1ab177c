-- ===== src/Trader/Changes/Effects.antt =====
-- What a cancellation finds, and what it does to the books.
use inertia_trader.Common.{
  ℕ, ◌≡◌, refl, ap, ◌∙◌, Bool, true, false, none, some, List, [], ◌∷◌, ◌++◌, Text, text_eq, All,
  get_elem?, codes, if◌then◌else◌,
}
use inertia_trader.Common.Map.{lookup, assign, nat_key}
use inertia_trader.Common.Action.{Action, ok, fault, pure, ◌>>=◌, ◌>>◌}
use inertia_trader.Common.Action.Laws.{>>=-ok, or_fault->>=, or_throw->>=}
use inertia_trader.Platform.{Platform}
use inertia_trader.Database.{update_order_situation, update_order_price}
use inertia_trader.Server.{on_history}
use inertia_trader.Trader.{Order, Trader, on_server}
use inertia_trader.Trader.Books.{find_nid}
use inertia_trader.Trader.Changes.{reply, cancel_in, modify_order, set_price, search_book}

module _ {N : Type 0} where
  -- The address holds an order, whose NID is this one or is not.
  abbrev pub Holds : Trader N → Text → Bool → ℕ → Type 0
  Holds t nid answer a = (o : Order N) × (lookup a t.orders ≡ some o) × (text_eq o.nid nid ≡ answer)

  find_nid-first :
      (nid : Text) (t : Trader N) (front : List ℕ) (a : ℕ) (rest : List ℕ)
      → Holds t nid true a
      → All (Holds t nid false) front
      → find_nid nid t (front ++ a ∷ rest) ≡ ok (some (front, a, rest))
  unfolding find_nid
  find_nid-first nid t [] a rest (o, e, h) _ = rw (find_nid, e, h)
  find_nid-first nid t (b ∷ front) a rest hit ((o, e, h), before) =
      rw (find_nid, e, h, find_nid-first nid t front a rest hit before)

  find_nid-missing :
      (nid : Text) (t : Trader N) (book : List ℕ)
      → All (Holds t nid false) book
      → find_nid nid t book ≡ ok none
  unfolding find_nid
  find_nid-missing nid t [] _ = refl
  find_nid-missing nid t (b ∷ book) ((o, e, h), before) =
      rw (find_nid, e, h, find_nid-missing nid t book before)

module _ {N : Type 0} (P : Platform N) where
  -- A cancellation in a book that holds an order with its NID takes the first such order out of the
  -- book, answers, and then tells the database.
  pub cancel_in-found :
      (book : Trader N → List ℕ) (put : List ℕ → Trader N → Trader N) (res : List Text) (nid : Text)
      (t : Trader N) (front : List ℕ) (a : ℕ) (rest : List ℕ)
      → get_elem? res 1 ≡ some nid
      → book t ≡ front ++ a ∷ rest
      → Holds t nid true a
      → All (Holds t nid false) front
      → cancel_in P book put res t
        ≡ (reply P res (codes "|cancel order success")
              >> (on_server (on_history (update_order_situation P nid (codes "3"))) >>= λ _ t'.
                  (ok tt, t')))
            (put (front ++ rest) t)
  unfolding cancel_in
  cancel_in-found book put res nid t front a rest e1 place hit before =
      let search : search_book P nid book t ≡ (ok (some (front, a, rest)), t) =
        ap (λ r. (r, t))
          (ap (find_nid nid t) place ∙ find_nid-first nid t front a rest hit before) in
      rw (
        cancel_in,
        or_fault->>= _ t e1,
        >>=-ok (search_book P nid book) _ t t (some (front, a, rest)) search,
      )

  -- An order that is not in that book is not cancelled, wherever else it lies: the answer says that
  -- there is no such order, and nothing but the answer happens.
  pub cancel_in-missing :
      (book : Trader N → List ℕ) (put : List ℕ → Trader N → Trader N) (res : List Text) (nid : Text)
      (t : Trader N)
      → get_elem? res 1 ≡ some nid
      → All (Holds t nid false) (book t)
      → cancel_in P book put res t ≡ reply P res (codes "|no this order") t
  unfolding cancel_in
  cancel_in-missing book put res nid t e1 missing =
      let search : search_book P nid book t ≡ (ok none, t) =
        ap (λ r. (r, t)) (find_nid-missing nid t (book t) missing) in
      rw (cancel_in, or_fault->>= _ t e1, >>=-ok (search_book P nid book) _ t t none search)

  -- A change of a sell order looks for it in the buy book alone. Where it is not found there, and the
  -- iterator differs from the end of the sell book, the end of the buy book is dereferenced.
  pub modify_order-sell_fault :
      (res : List Text) (nid : Text) (t : Trader N)
      → get_elem? res 1 ≡ some nid
      → get_elem? res 3 ≡ some (codes "2")
      → All (Holds t nid false) t.buyside
      → P.foreign_end ≡ false
      → modify_order P res t ≡ (fault, t)
  unfolding modify_order set_price
  modify_order-sell_fault res nid t e1 e3 missing foreign =
      let search : search_book P nid (λ t. t.buyside) t ≡ (ok none, t) =
        ap (λ r. (r, t)) (find_nid-missing nid t t.buyside missing) in
      rw (
        modify_order,
        or_fault->>= _ t e1,
        >>=-ok (search_book P nid (λ t. t.buyside)) _ t t none search,
        or_fault->>= _ t e3,
        foreign,
      )

  chosen :
      (b c : Bool) (m n : Action (Trader N) (Unit {0})) (t : Trader N)
      → c ≡ false
      → (if b then m else if c then n else m) t ≡ m t
  chosen true c m n t e = refl
  chosen false c m n t e = ap (λ x. (if x then n else m) t) e

  -- The trader with another price of one order.
  abbrev pub repriced : ℕ → Order N → N → Trader N → Trader N
  repriced a o price t = record t {
    orders = assign a (record o { order_price = some price }) t.orders;
  }

  set_price-found :
      (res : List Text) (nid price_text : Text) (price : N) (t : Trader N) (a : ℕ) (o : Order N)
      → get_elem? res 2 ≡ some price_text
      → P.stod price_text ≡ some price
      → lookup a t.orders ≡ some o
      → set_price P nid (some a) res t
        ≡ (reply P res (codes "|modify order success")
              >> (on_server (on_history (update_order_price P nid price_text)) >> pure tt))
            (repriced a o price t)
  unfolding set_price
  set_price-found res nid price_text price t a o e2 reads here =
      rw (set_price, or_fault->>= _ t e2, or_throw->>= _ t reads, or_fault->>= _ t here)

  -- A change of an order with a price that can be read: where the buy book holds an order with its
  -- NID, the first such order gets the price, the client is answered, and then the database is told
  -- the text of the price. That is so whether the message names the buy side or another one, if an
  -- iterator of the buy book differs from the end of the sell book.
  pub modify_order-found :
      (res : List Text) (nid side price_text : Text) (price : N) (t : Trader N) (front : List ℕ)
      (a : ℕ) (rest : List ℕ) (o : Order N)
      → get_elem? res 1 ≡ some nid
      → get_elem? res 2 ≡ some price_text
      → get_elem? res 3 ≡ some side
      → P.stod price_text ≡ some price
      → t.buyside ≡ front ++ a ∷ rest
      → lookup a t.orders ≡ some o
      → text_eq o.nid nid ≡ true
      → All (Holds t nid false) front
      → P.foreign_end ≡ false
      → modify_order P res t
        ≡ (reply P res (codes "|modify order success")
              >> (on_server (on_history (update_order_price P nid price_text)) >> pure tt))
            (repriced a o price t)
  unfolding modify_order
  modify_order-found res nid side price_text price t front a rest o e1 e2 e3 reads place here hit
        before foreign =
      let search : search_book P nid (λ t. t.buyside) t ≡ (ok (some (front, a, rest)), t) =
        ap (λ r. (r, t))
          (ap (find_nid nid t) place ∙ find_nid-first nid t front a rest (o, here, hit) before) in
      let written = set_price-found res nid price_text price t a o e2 reads here in
      rw
        (
          modify_order,
          or_fault->>= _ t e1,
          >>=-ok (search_book P nid (λ t. t.buyside)) _ t t (some (front, a, rest)) search,
          or_fault->>= _ t e3,
        )
        (chosen (text_eq side (codes "1")) P.foreign_end (set_price P nid (some a) res)
            (reply P res (codes "|no this order, modify failed")) t foreign
          ∙ written)
