-- ===== src/Examples/RoundRuns.antt =====
-- The threads, the books and the reports at concrete inputs.
use inertia_trader.Common.{ℕ, ◌+◌, ◌≤◌, ◌≡◌, refl, Bool, none, some, [], ◌∷◌, codes, arith}
use inertia_trader.Common.Int.{pos}
use inertia_trader.Common.Map.{nat_key}
use inertia_trader.Common.Action.{ok}
use inertia_trader.Funclib.DataQueue.{new_queue}
use inertia_trader.Funclib.DataQueue.Log.{Use, use_all, use_all-log_results}
use inertia_trader.Types.{Side}
use inertia_trader.Trader.{Order, Trader}
use inertia_trader.Trader.Reports.Sending.{Reportable}
use inertia_trader.Trader.Reports.Draining.{report_rounds, stored_all, report_rounds-drain}
use inertia_trader.Trader.Matching.{match_pass}
use inertia_trader.Trader.Changes.{get_cancel_order}
use inertia_trader.Trader.Holdings.Changes.{get_cancel_order-holdings}
use inertia_trader.Trader.Holdings.{holdings}
use inertia_trader.Trader.Holdings.Trading.{Conserved, match_pass-Conserved}
use inertia_trader.Trader.Holdings.Lifecycle.{Round, Runs, IsSingle, after_round, Runs-IsSingle}
use inertia_trader.Trader.Threads.{
  Actor, MainPc, MatchPc, OrderPc, MutexKind, System, Move, Reach, init, step,
}
use inertia_trader.Trader.Threads.Undefined.{Reach-no_rounds}
use inertia_trader.Trader.Threads.Progress.{
  run, go, unlocking, unlocked, Reach-trades-le-booked, Reach-before_trade,
}
use inertia_trader.Examples.{platform, connection, trader, buy_order, sell_order}

-- `startTransaction` has its lock, and an order is in its raw book.
abbrev placed : System
placed = record (init MainPc.arriving) {
  owner = some Actor.main_thread;
  main_pc = MainPc.checking;
  order_pc = OrderPc.before_unlock;
  booked = 1;
}

Reach-no_rounds_example :
    (placed.rounds ≡ 0) × (placed.trades ≡ 0) × (placed.released ≡ 0) × (placed.booked ≤ 1)
unfolding step
Reach-no_rounds_example =
    Reach-no_rounds {s = placed}
      (Reach.later Move.book_step (Reach.later Move.main_step Reach.start refl) refl)

-- `matchup` in its first round, about to trade, behind one booked order.
abbrev about : System
about = record (init MainPc.asleep) {
  owner = some Actor.match_thread;
  match_pc = MatchPc.before_trade;
  rounds = 1;
  booked = 1;
  released = 1;
}

about-Reach : Reach MutexKind.fast MainPc.asleep about
unfolding step
about-Reach =
    Reach.later go
      (Reach.later go
        (Reach.later Move.book_step
          (Reach.later Move.book_step (Reach.later go (Reach.later go Reach.start refl) refl) refl)
          refl)
        refl)
      refl

Reach-trades-le-booked_example :
    (about.trades + 1 ≤ about.released) × (about.released ≤ about.booked)
Reach-trades-le-booked_example = Reach-trades-le-booked {s = about} about-Reach (omega arith)

Reach-before_trade_example :
    ((c : Bool) → step MutexKind.fast (Move.match_step c) about ≡ none)
    × (step MutexKind.fast Move.main_step about ≡ none)
    × (run (unlocking about.order_pc (go ∷ go ∷ go ∷ [])) about
        ≡ some (record (unlocked about) { match_pc = MatchPc.head; trades = 1 }))
Reach-before_trade_example = Reach-before_trade {s = about} about-Reach refl refl

use_all-log_results_example :
    (use_all (Use.poll ∷ Use.push (codes "a") ∷ Use.poll ∷ []) (new_queue 1)).0
    ≡ ok (none ∷ none ∷ some (codes "a") ∷ [])
use_all-log_results_example =
    use_all-log_results (Use.poll ∷ Use.push (codes "a") ∷ Use.poll ∷ []) 1

match_pass-Conserved_example : Conserved (holdings trader) (holdings (match_pass platform trader).1)
match_pass-Conserved_example = match_pass-Conserved platform trader

trader-IsSingle : IsSingle (holdings trader)
trader-IsSingle c = ground arith

abbrev two_rounds : Trader ℕ
two_rounds =
    after_round platform (Round.order_round 4) (after_round platform Round.match_round trader)

two_rounds-Runs : Runs platform trader two_rounds
unfolding after_round
two_rounds-Runs =
    Runs.later (Round.order_round 4) (Runs.later Round.match_round Runs.start tt)
      (match_pass-Conserved platform trader 4)

Runs-IsSingle_example : IsSingle (holdings two_rounds)
Runs-IsSingle_example = Runs-IsSingle platform trader two_rounds two_rounds-Runs trader-IsSingle

abbrev traded_buy : Order ℕ
traded_buy = record buy_order {
  exec_price = some 600;
  conn_id = some (pos 3);
  client_serial_num = some (pos 9);
}

abbrev traded_sell : Order ℕ
traded_sell = record sell_order {
  exec_price = some 600;
  conn_id = some (pos 3);
  client_serial_num = some (pos 8);
}

abbrev traded_trader : Trader ℕ
traded_trader = record trader {
  orders = (1, traded_buy) ∷ (2, traded_sell) ∷ [];
  report_list = 1 ∷ 2 ∷ [];
}

abbrev buy_report : Reportable 1 traded_trader
buy_report = record {
  order = traded_buy;
  conn = pos 3;
  price = 610;
  exec = 600;
  side = Side.buy;
  serial = pos 9;
  address = 0;
  connection = connection;
  on_heap = refl;
  has_conn = refl;
  has_price = refl;
  has_exec = refl;
  has_side = refl;
  has_serial = refl;
  stored = refl;
  alive = refl;
}

abbrev sell_report : Reportable 2 traded_trader
sell_report = record {
  order = traded_sell;
  conn = pos 3;
  price = 600;
  exec = 600;
  side = Side.sell;
  serial = pos 8;
  address = 0;
  connection = connection;
  on_heap = refl;
  has_conn = refl;
  has_price = refl;
  has_exec = refl;
  has_side = refl;
  has_serial = refl;
  stored = refl;
  alive = refl;
}

report_rounds-drain_example :
    (t' : Trader ℕ) × (report_rounds platform 2 traded_trader ≡ (ok tt, t'))
    × (t'.report_list ≡ [])
    × (t'.sr.wire ≡ (5, codes "8|OrderExec\n") ∷ (5, codes "7|OrderExec\n") ∷ [])
    × (t'.sr.history
        ≡ stored_all platform traded_trader (2 ∷ 1 ∷ []) (sell_report, (buy_report, tt)))
report_rounds-drain_example =
    report_rounds-drain platform (2 ∷ 1 ∷ []) traded_trader (sell_report, (buy_report, tt)) refl
      refl

get_cancel_order-holdings_example : holdings (get_cancel_order platform trader).1 ≡ holdings trader
get_cancel_order-holdings_example = get_cancel_order-holdings platform trader
