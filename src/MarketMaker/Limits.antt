-- ===== src/MarketMaker/Limits.antt =====
-- The rounds of the three threads of the market maker, and its two limits.
use inertia_trader.Common.{
  ℕ, zero, suc, ◌*◌, ◌≡◌, true, some, none, List, [], ◌∷◌, Text, text_eq, ◌||◌, if◌then◌else◌,
}
use inertia_trader.Common.Floats.{Floats}
use inertia_trader.Funclib.Split.{c_str}
use inertia_trader.MarketMaker.{
  Client, ConnectCalls, recv_msg, heartbeat_sending, start_trading_process, buy_order, sell_order,
  may_trade,
}
use inertia_trader.MarketMaker.Replies.{Said}
use inertia_trader.MarketMaker.Counting.{Counts}

-- How many orders are among the texts.
abbrev pub orders_in : List Text → ℕ
orders_in [] = 0
orders_in (m ∷ ms) =
    let rest = orders_in ms in
    if text_eq m buy_order || text_eq m sell_order then suc rest else rest

module _ {N : Type 0} (F : Floats N) where
  -- The rounds of the threads, one after the other, with the number of those that trade. A receive
  -- gives a text of the server, and the memory behind it, or fails.
  pub data Rounds (from : Client N) : ℕ → Client N → Type 0 where
    start : Rounds from zero from
    beats : {n : ℕ} {c : Client N} → Rounds from n c → Rounds from n (heartbeat_sending c)
    trades :
        {n : ℕ} {c : Client N}
        → Rounds from n c
        → may_trade c ≡ true
        → Rounds from (suc n) (start_trading_process c)
    hears :
        {n : ℕ} {c : Client N} (bytes : Text) (calls : ℕ → ConnectCalls) (fuel : ℕ)
        → Rounds from n c
        → Said (c_str bytes)
        → Rounds from n (recv_msg F (some bytes) calls fuel c).1
    loses :
        {n : ℕ} {c : Client N} (calls : ℕ → ConnectCalls) (fuel : ℕ)
        → Rounds from n c
        → Rounds from n (recv_msg F none calls fuel c).1

  -- Nothing is counted, and each round of trading has sent its two orders.
  record Unlimited (n : ℕ) (k : Counts) : Type 0 where
    no_orders : k.orders ≡ 0
    no_trades : k.trades ≡ 0
    order_limit : k.order_limit ≡ 10
    trade_limit : k.trade_limit ≡ 10
    all_sent : orders_in k.sent ≡ 2 * n
