-- ===== src/Trader/Matching/Trades.antt =====
-- Which orders a pass of `matchup` trades, and when.
use inertia_trader.Common.{ℕ, ◌≡◌, refl, ap, ◌∙◌, true, false, some, List, [], ◌∷◌, ◌++◌}
use inertia_trader.Common.Map.{lookup, nat_key}
use inertia_trader.Common.Action.{ok, ◌>>◌, modify, gets}
use inertia_trader.Common.Action.Laws.{>>=-ok, or_fault->>=}
use inertia_trader.Platform.{Platform}
use inertia_trader.Trader.{Order, Trader}
use inertia_trader.Trader.Books.{split_end}
use inertia_trader.Trader.Matching.{execute, crosses, match_from, match_pass}

pub split_end-append : (front : List ℕ) (a : ℕ) → split_end (front ++ a ∷ []) ≡ some (front, a)
unfolding split_end
split_end-append [] a = refl
split_end-append (b ∷ front) a = rw (split_end, split_end-append front a)

module _ {N : Type 0} (P : Platform N) where
  -- The last order that came in and the last sell order, with their prices.
  pub record Prices (t : Trader N) (s : ℕ) : Type 0 where
    pub newest : ℕ
    pub last : Order N
    pub bid : N
    pub ods : Order N
    pub ask : N
    pub is_newest : t.od ≡ some newest
    pub newest_at : lookup newest t.orders ≡ some last
    pub has_bid : last.order_price ≡ some bid
    pub sell_at : lookup s t.orders ≡ some ods
    pub has_ask : ods.order_price ≡ some ask

  crosses-Prices :
      (s : ℕ) (t : Trader N) (p : Prices t s) → crosses P s t ≡ (ok (P.ge p.bid p.ask), t)
  unfolding crosses
  crosses-Prices s t p = rw (
    crosses,
    or_fault->>= _ t p.is_newest,
    or_fault->>= _ t p.newest_at,
    or_fault->>= _ t p.has_bid,
    or_fault->>= _ t p.sell_at,
    or_fault->>= _ t p.has_ask,
  )

  match_from-apart :
      (front buys sells : List ℕ) (s : ℕ) (t : Trader N)
      → crosses P s t ≡ (ok false, t)
      → match_from P front buys sells s t ≡ (ok tt, t)
  unfolding match_from
  match_from-apart front [] sells s t e = refl
  match_from-apart front (b ∷ buys) sells s t e = rw (
    match_from,
    >>=-ok (crosses P s) _ t t false e,
    match_from-apart (front ++ b ∷ []) buys sells s t e,
  )

  match_from-hit :
      (front : List ℕ) (b : ℕ) (buys sells : List ℕ) (s : ℕ) (t : Trader N)
      → crosses P s t ≡ (ok true, t)
      → match_from P front (b ∷ buys) sells s t
        ≡ (execute P b s
              >> modify (λ t. record t { raw_buyside = front ++ buys; raw_sellside = sells }))
            t
  unfolding match_from
  match_from-hit front b buys sells s t e = rw (match_from, >>=-ok (crosses P s) _ t t true e)

  -- Where the newest order's price is below the price of the last sell order, a pass trades nothing,
  -- whatever the prices of the orders in the buy book are.
  pub match_pass-apart :
      (t : Trader N) (sells : List ℕ) (s : ℕ) (p : Prices t s)
      → t.raw_sellside ≡ sells ++ s ∷ []
      → P.ge p.bid p.ask ≡ false
      → match_pass P t ≡ (ok tt, t)
  unfolding match_pass
  match_pass-apart t sells s p place below = rw (
    match_pass,
    >>=-ok (gets (λ t. t)) _ t t t refl,
    ap split_end place ∙ split_end-append sells s,
    match_from-apart [] t.raw_buyside sells s t (crosses-Prices s t p ∙ ap (λ b. (ok b, t)) below),
  )

  -- Where the newest order's price reaches the price of the last sell order, and the buy book is not
  -- empty, the front of the buy book trades with the end of the sell book, whatever the price of that
  -- buy order is, and both leave their books; there is one trade in a pass.
  pub match_pass-trade :
      (t : Trader N) (b : ℕ) (buys sells : List ℕ) (s : ℕ) (p : Prices t s)
      → t.raw_buyside ≡ b ∷ buys
      → t.raw_sellside ≡ sells ++ s ∷ []
      → P.ge p.bid p.ask ≡ true
      → match_pass P t
        ≡ (execute P b s >> modify (λ t. record t { raw_buyside = buys; raw_sellside = sells })) t
  unfolding match_pass
  match_pass-trade t b buys sells s p front end above =
      rw
        (
          match_pass,
          >>=-ok (gets (λ t. t)) _ t t t refl,
          ap split_end end ∙ split_end-append sells s,
        )
        (ap (λ bs. match_from P [] bs sells s t) front
          ∙ match_from-hit [] b buys sells s t (crosses-Prices s t p ∙ ap (λ b. (ok b, t)) above))
