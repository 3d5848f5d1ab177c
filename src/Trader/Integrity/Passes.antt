-- ===== src/Trader/Integrity/Passes.antt =====
-- How a pass of `matchup` ends that follows any rounds of the four threads.
use inertia_trader.Common.{
  ℕ, ◌≤◌, ◌≡◌, ◌≢◌, refl, ap, ◌∙◌, subst, true, false, some, List, [], ◌∷◌, ◌++◌, codes, arith,
  Bool-cases, Option-cases, inl, inr,
}
use inertia_trader.Common.Action.{ok, modify}
use inertia_trader.Common.Action.Laws.{>>=-ok}
use inertia_trader.Common.Map.{lookup, nat_key, text_key}
use inertia_trader.Platform.{Platform}
use inertia_trader.Types.{Stock}
use inertia_trader.Trader.{Order, Trader}
use inertia_trader.Trader.Books.{split_end}
use inertia_trader.Trader.Books.Sorted.{count}
use inertia_trader.Trader.Matching.{execute, match_from, match_pass}
use inertia_trader.Trader.Matching.Trades.{Prices, match_pass-apart, match_pass-trade}
use inertia_trader.Trader.Matching.Reported.{execute-reports}
use inertia_trader.Trader.Holdings.{Holdings, holdings}
use inertia_trader.Trader.Holdings.Trading.{split_end-none, split_end-some, count-append, pass_with}
use inertia_trader.Trader.Holdings.Lifecycle.{Runs, IsSingle, Runs-IsSingle}
use inertia_trader.Trader.Integrity.{IsSound}
use inertia_trader.Trader.Integrity.Trading.{sell_at, buy_at}
use inertia_trader.Trader.Integrity.Rounds.{Runs-IsSound}

module _ {N : Type 0} (P : Platform N) where
  -- The order that came in last, with its price, and the product that is quoted.
  pub record IsReady (t : Trader N) : Type 0 where
    pub newest : ℕ
    pub last : Order N
    pub bid : N
    pub stock : Stock N
    pub is_newest : t.od ≡ some newest
    pub newest_at : lookup newest t.orders ≡ some last
    pub has_bid : last.order_price ≡ some bid
    pub quoted : lookup (codes "KKC") t.sr.quotes_list ≡ some (some stock)

  -- What a pass makes of a trader, where the newest order has this price.
  pub data Passed (bid : N) (t t' : Trader N) : Type 0 where
    no_sell : t.raw_sellside ≡ [] → t' ≡ t → Passed bid t t'
    no_buy : t.raw_buyside ≡ [] → t' ≡ t → Passed bid t t'
    apart :
        (sells : List ℕ) (s : ℕ) (ods : Order N) (ask : N)
        → t.raw_sellside ≡ sells ++ s ∷ []
        → lookup s t.orders ≡ some ods
        → ods.order_price ≡ some ask
        → P.ge bid ask ≡ false
        → t' ≡ t
        → Passed bid t t'
    traded :
        (b : ℕ) (odb : Order N) (sells : List ℕ) (s : ℕ) (ods : Order N) (ask : N)
        → t.raw_buyside ≡ b ∷ t'.raw_buyside
        → t.raw_sellside ≡ t'.raw_sellside ++ s ∷ []
        → lookup b t.orders ≡ some odb
        → lookup s t.orders ≡ some ods
        → ods.order_price ≡ some ask
        → P.ge bid ask ≡ true
        → lookup b t'.orders ≡ some (record odb { exec_price = some ask })
        → lookup s t'.orders ≡ some (record ods { exec_price = some ask })
        → t'.report_list ≡ t.report_list ++ b ∷ s ∷ []
        → Passed bid t t'

  count_here : (a : ℕ) (xs : List ℕ) → 1 ≤ count a (a ∷ xs)
  count_here a xs = ground arith

  -- An order that is held once is not on both sides.
  apart_sides :
      (b s : ℕ) (bs sells : List ℕ) (h : Holdings)
      → IsSingle h
      → h.buys ≡ b ∷ bs
      → h.sells ≡ sells ++ s ∷ []
      → b ≢ s
  apart_sides b s bs sells h single eb es same = absurd (
      omega (
        arith,
        single s,
        ap (count s) eb,
        ap (count s) es,
        count-append s sells (s ∷ []),
        count_here s [],
        subst (λ a. 1 ≤ count a (b ∷ bs)) same (count_here b bs),
      ))

  trade-Passed :
      (t : Trader N) (r : IsReady t) (b : ℕ) (bs sells : List ℕ) (s : ℕ) (odb ods : Order N)
      (ask : N)
      → b ≢ s
      → t.raw_buyside ≡ b ∷ bs
      → t.raw_sellside ≡ sells ++ s ∷ []
      → lookup b t.orders ≡ some odb
      → lookup s t.orders ≡ some ods
      → ods.order_price ≡ some ask
      → P.ge r.bid ask ≡ true
      → ((match_pass P t).0 ≡ ok tt) × Passed r.bid t (match_pass P t).1
  trade-Passed t r b bs sells s odb ods ask ne eb es hb hs ha above =
      let prices : Prices P t s = record {
        newest = r.newest;
        last = r.last;
        bid = r.bid;
        ods = ods;
        ask = ask;
        is_newest = r.is_newest;
        newest_at = r.newest_at;
        has_bid = r.has_bid;
        sell_at = hs;
        has_ask = ha;
      } in
      let t1 = (execute P b s t).1 in
      let (ends, b1, s1, reports) =
        execute-reports P b s t odb ods ask r.stock ne hb hs ha r.quoted in
      let t2 : Trader N = record t1 { raw_buyside = bs; raw_sellside = sells } in
      let whole : match_pass P t ≡ (ok tt, t2) =
        match_pass-trade P t b bs sells s prices eb es above
        ∙ >>=-ok (execute P b s)
            (λ _. modify (λ t. record t { raw_buyside = bs; raw_sellside = sells })) t t1 tt
            (λ i. (ends i, t1)) in
      rw whole (refl, Passed.traded b odb sells s ods ask eb es hb hs ha above b1 s1 reports)

  -- A pass of a sound trader whose orders are held once, by the last sell order.
  sell-Passed :
      (t : Trader N) (r : IsReady t) (buys sells : List ℕ) (s : ℕ)
      → IsSound t
      → IsSingle (holdings t)
      → t.raw_buyside ≡ buys
      → split_end t.raw_sellside ≡ some (sells, s)
      → ((match_pass P t).0 ≡ ok tt) × Passed r.bid t (match_pass P t).1
  unfolding match_from match_pass
  sell-Passed t r [] sells s q single eb e =
      let still : match_pass P t ≡ (ok tt, t) =
        ap (λ x. pass_with P t.raw_buyside x t) e ∙ ap (λ bs. match_from P [] bs sells s t) eb in
      rw still (refl, Passed.no_buy eb refl)
  sell-Passed t r (b ∷ bs) sells s q single eb e =
      let es : t.raw_sellside ≡ sells ++ s ∷ [] = split_end-some t.raw_sellside sells s e in
      let (ods, hs, k) = sell_at sells s t.orders (holdings t) q es in
      let (odb, hb, _) = buy_at [] b bs t.orders (holdings t) q eb in
      let prices : Prices P t s = record {
        newest = r.newest;
        last = r.last;
        bid = r.bid;
        ods = ods;
        ask = k.price;
        is_newest = r.is_newest;
        newest_at = r.newest_at;
        has_bid = r.has_bid;
        sell_at = hs;
        has_ask = k.has_price;
      } in
      elim (Bool-cases (P.ge r.bid k.price)) [
        | inl above ↦
            trade-Passed t r b bs sells s odb ods k.price
              (apart_sides b s bs sells (holdings t) single eb es) eb es hb hs k.has_price above
        | inr below ↦
            rw (match_pass-apart P t sells s prices es below)
              (refl, Passed.apart sells s ods k.price es hs k.has_price below refl)
      ]

  sound-Passed :
      (t : Trader N) (r : IsReady t)
      → IsSound t
      → IsSingle (holdings t)
      → ((match_pass P t).0 ≡ ok tt) × Passed r.bid t (match_pass P t).1
  unfolding match_pass
  sound-Passed t r q single = elim (Option-cases (split_end t.raw_sellside)) [
    | inl e ↦
        let still : match_pass P t ≡ (ok tt, t) = ap (λ x. pass_with P t.raw_buyside x t) e in
        rw still (refl, Passed.no_sell (split_end-none t.raw_sellside e) refl)
    | inr ((sells, s), e) ↦ sell-Passed t r t.raw_buyside sells s q single refl e
  ]

  -- Behind any sequence of whole rounds of the threads, where the heap gives no address of an order
  -- that is held, and where the newest order has its price and the product is quoted, a pass of the
  -- matching ends well. It changes nothing if a raw book is empty, or if the price of the newest
  -- order is below that of the last sell order; otherwise the front of the buy book and the last sell
  -- order leave their books, get the price of the sell order, and are reported behind the others.
  pub Runs-Passed :
      (from t : Trader N) (r : IsReady t)
      → Runs P from t
      → IsSound from
      → IsSingle (holdings from)
      → ((match_pass P t).0 ≡ ok tt) × Passed r.bid t (match_pass P t).1
  Runs-Passed from t r run q single =
      sound-Passed t r (Runs-IsSound P from t run q) (Runs-IsSingle P from t run single)
