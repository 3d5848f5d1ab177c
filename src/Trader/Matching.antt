-- ===== src/Trader/Matching.antt =====
-- `Trader::matchup`: one pass. What the loop does with the mutex `cv_m` is in Trader/Threads.
pub mod Trades
pub mod Reported
use inertia_trader.Common.{
  ℕ, Bool, true, false, Option, none, some, List, [], ◌∷◌, ◌++◌, codes, if◌then◌else◌,
}
use inertia_trader.Common.Map.{lookup, assign, nat_key}
use inertia_trader.Common.Action.{
  Action, Outcome, ok, fault, throws, ◌>>=◌, ◌>>◌, pure, or_fault, gets, modify, zoom,
}
use inertia_trader.Platform.{Platform}
use inertia_trader.Server.{quote_update}
use inertia_trader.Trader.{Order, Trader, on_server, order_at, put_order}
use inertia_trader.Trader.Books.{split_end}

module _ {N : Type 0} (P : Platform N) where
  -- The trade of a buy order with a sell order, at the sell order's price.
  unfoldable pub execute : ℕ → ℕ → Action (Trader N) (Unit {0})
  execute b s = do
    ods ← order_at s
    price ← or_fault ods.order_price
    odb ← order_at b
    put_order b (record odb { exec_price = some price })
    ods' ← order_at s
    put_order s (record ods' { exec_price = some price })
    on_server (quote_update P (codes "KKC") price)
    modify (λ t. record t { report_list = t.report_list ++ b ∷ s ∷ [] })

  -- The test of the loop. It reads `od`, the order that came in last, and not `odb`.
  unfoldable pub crosses : ℕ → Action (Trader N) Bool
  crosses s = do
    t ← gets (λ t. t)
    a ← or_fault t.od
    last ← order_at a
    bid ← or_fault last.order_price
    ods ← order_at s
    ask ← or_fault ods.order_price
    pure (P.ge bid ask)

  -- The `for` over the buy side, from an order on, with the orders in front of it.
  unfoldable pub match_from : List ℕ → List ℕ → List ℕ → ℕ → Action (Trader N) (Unit {0})
  match_from front [] sells s = pure tt
  match_from front (b ∷ bs) sells s = do
    hit ← crosses s
    if hit
        then (do
          execute b s
          modify (λ t. record t { raw_buyside = front ++ bs; raw_sellside = sells }))
        else match_from (front ++ b ∷ []) bs sells s

  -- The `while` makes one round at most, and only if neither side is empty.
  unfoldable pub match_pass : Action (Trader N) (Unit {0})
  match_pass = do
    t ← gets (λ t. t)
    elim (split_end t.raw_sellside) [
      | none ↦ pure tt
      | some (sells, s) ↦ match_from [] t.raw_buyside sells s
    ]
