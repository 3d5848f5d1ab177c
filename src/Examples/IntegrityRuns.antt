-- ===== src/Examples/IntegrityRuns.antt =====
-- The orders that are held, over rounds at concrete inputs.
use mathlib.Core.Option.{some-injective}
use inertia_trader.Common.{
  ℕ, ◌+◌, ◌*◌, ◌^◌, ◌++◌, ◌≡◌, refl, ap, ◌∙◌, subst, some, [], ◌∷◌, Text, codes, arith, All,
}
use inertia_trader.Common.Int.{ℤ, pos}
use inertia_trader.Common.Action.{ok}
use inertia_trader.Common.Decimal.{stoi}
use inertia_trader.Common.Map.{lookup, nat_key, int_key}
use inertia_trader.Funclib.Split.{split}
use inertia_trader.Types.{Side}
use inertia_trader.Database.{update_price_query}
use inertia_trader.Trader.{Order, Trader}
use inertia_trader.Trader.Nid.Unique.{generate_nid-eq}
use inertia_trader.Trader.Risk.{verify, verify_text, refuses, listed}
use inertia_trader.Trader.Startup.{new_trader}
use inertia_trader.Trader.Changes.{modify_order}
use inertia_trader.Trader.Changes.Answers.{Names, heard}
use inertia_trader.Trader.Changes.Told.{modify_order-told}
use inertia_trader.Trader.Orders.{Request, handle_order, read_request}
use inertia_trader.Trader.Matching.{match_pass}
use inertia_trader.Trader.Reports.Sending.{Reportable}
use inertia_trader.Trader.Reports.Draining.{report_rounds, told, stored_all}
use inertia_trader.Trader.Holdings.{holdings, total}
use inertia_trader.Trader.Holdings.Lifecycle.{Round, Runs, IsSingle, after_round}
use inertia_trader.Trader.Integrity.{IsComplete, IsSound}
use inertia_trader.Trader.Integrity.Life.{new_trader-holdings, Runs-new_trader}
use inertia_trader.Trader.Integrity.Passes.{IsReady, Passed, Runs-Passed}
use inertia_trader.Trader.Integrity.Drained.{Runs-drain}
use inertia_trader.Trader.Integrity.Arrival.{handle_order-match_pass}
use inertia_trader.Examples.{
  platform, connection, trader, buy_order, sell_order, cheap_order, stock, request,
}
use inertia_trader.Examples.TraderRuns.{
  next_source, rich_trader, rich_account, cancel_fields, source,
}

-- Members that hold no order yet, and an order and a pass behind the constructor.
abbrev made : Trader ℕ
made = record trader { raw_buyside = []; raw_sellside = [] }

abbrev lived : Trader ℕ
lived =
    after_round platform Round.match_round
      (after_round platform (Round.order_round 4) (new_trader platform 7 made).1)

lived-Runs : Runs platform (new_trader platform 7 made).1 lived
lived-Runs =
    Runs.later Round.match_round
      (Runs.later (Round.order_round 4) Runs.start
        (ap (total 4) (new_trader-holdings platform 7 made)))
      tt

Runs-new_trader_example : IsSound lived × IsSingle (holdings lived)
Runs-new_trader_example = Runs-new_trader platform 7 made lived refl lived-Runs

-- Two complete orders, which the books hold.
abbrev full_buy : Order ℕ
full_buy = record buy_order { conn_id = some (pos 3); client_serial_num = some (pos 9) }

abbrev full_sell : Order ℕ
full_sell = record sell_order { conn_id = some (pos 3); client_serial_num = some (pos 8) }

abbrev full_trader : Trader ℕ
full_trader = record trader {
  orders = (1, full_buy) ∷ (2, full_sell) ∷ [];
  raw_buyside = 1 ∷ [];
  raw_sellside = 2 ∷ [];
}

abbrev buy-IsComplete : IsComplete Side.buy full_buy
buy-IsComplete = record {
  price = 610;
  conn = pos 3;
  serial = pos 9;
  has_price = refl;
  has_conn = refl;
  has_serial = refl;
  has_side = refl;
}

abbrev sell-IsComplete : IsComplete Side.sell full_sell
sell-IsComplete = record {
  price = 600;
  conn = pos 3;
  serial = pos 8;
  has_price = refl;
  has_conn = refl;
  has_serial = refl;
  has_side = refl;
}

abbrev full-IsSound : IsSound full_trader
full-IsSound = record {
  buys = ((full_buy, refl, buy-IsComplete), tt);
  sells = ((full_sell, refl, sell-IsComplete), tt);
  reports = tt;
  buys_sorted = (tt, tt);
  sells_sorted = (tt, tt);
}

abbrev full-IsReady : IsReady platform full_trader
full-IsReady = record {
  newest = 1;
  last = full_buy;
  bid = 610;
  stock = stock;
  is_newest = refl;
  newest_at = refl;
  has_bid = refl;
  quoted = refl;
}

full-IsSingle : IsSingle (holdings full_trader)
full-IsSingle c = ground arith

Runs-Passed_example :
    ((match_pass platform full_trader).0 ≡ ok tt)
    × Passed platform 610 full_trader (match_pass platform full_trader).1
Runs-Passed_example =
    Runs-Passed platform full_trader full_trader full-IsReady Runs.start full-IsSound full-IsSingle

abbrev reported_trader : Trader ℕ
reported_trader = record trader {
  orders = (1, record full_buy { exec_price = some 600 }) ∷ [];
  raw_buyside = [];
  raw_sellside = [];
  report_list = 1 ∷ [];
}

abbrev reported-IsSound : IsSound reported_trader
reported-IsSound = record {
  buys = tt;
  sells = tt;
  reports = (
    (
      record full_buy { exec_price = some 600 },
      Side.buy,
      600,
      refl,
      record {
        price = 610;
        conn = pos 3;
        serial = pos 9;
        has_price = refl;
        has_conn = refl;
        has_serial = refl;
        has_side = refl;
      },
      refl,
    ),
    tt,
  );
  buys_sorted = tt;
  sells_sorted = tt;
}

reported-stored :
    (o : Order ℕ) (conn : ℤ)
    → lookup 1 reported_trader.orders ≡ some o
    → o.conn_id ≡ some conn
    → lookup conn reported_trader.sr.conn_storage ≡ some (some 0)
reported-stored o conn e c =
    let held : Order ℕ = record full_buy { exec_price = some 600 } in
    let same : pos 3 ≡ conn =
      some-injective (pos 3) conn (ap (λ (x : Order ℕ). x.conn_id) (some-injective held o e) ∙ c) in
    subst (λ k. lookup k reported_trader.sr.conn_storage ≡ some (some 0)) same refl

Runs-drain_example :
    (all : All (λ a. Reportable a reported_trader) (1 ∷ [])) × (t' : Trader ℕ) × (report_rounds
        platform 1 reported_trader
      ≡ (ok tt, t'))
    × (t'.report_list ≡ [])
    × (t'.sr.wire ≡ told platform reported_trader (1 ∷ []) all)
    × (t'.sr.history ≡ stored_all platform reported_trader (1 ∷ []) all)
Runs-drain_example =
    Runs-drain platform reported_trader reported_trader Runs.start reported-IsSound refl
      ((λ o conn e c. (0, connection, reported-stored o conn e c, refl)), tt)

change-Names : Names (cancel_fields (codes "7") (codes "2")) (codes "7") (pos 3)
unfolding stoi
change-Names = record { conn_text = codes "3"; has_nid = refl; has_conn = refl; number = refl }

modify_order-told_example :
    modify_order platform (cancel_fields (codes "7") (codes "2")) trader
    ≡ heard platform
        (pos 3)
        ((codes "7" ++ codes "|modify order success") ++ codes "\n")
        (update_price_query (codes "7") (codes "60"))
        (record trader {
          orders =
              (1, record buy_order { order_price = some 600 })
              ∷ (2, sell_order)
              ∷ (3, cheap_order)
              ∷ [];
        })
modify_order-told_example =
    modify_order-told platform (cancel_fields (codes "7") (codes "2")) (codes "7") (codes "2")
      (codes "60") 600 (pos 3) trader (3 ∷ []) 1 [] buy_order change-Names refl refl refl refl refl
      refl ((cheap_order, refl, refl), tt) refl

-- A sell order at 64 against a buy order at 59.
abbrev waiting_trader : Trader ℕ
waiting_trader = record rich_trader { raw_buyside = 3 ∷ []; raw_sellside = [] }

abbrev sell_request : Request ℕ
sell_request = record request { price = 640; side_text = codes "2"; side_number = pos 2 }

abbrev sell_text : Text
sell_text = codes "87|7|64|2|1|1|KKC|3|"

handle_order-match_pass_example :
    let q = match_pass platform (handle_order platform 4 sell_text waiting_trader).1 in
    (q.0 ≡ ok tt)
    × (q.1.raw_buyside ≡ [])
    × (q.1.raw_sellside ≡ [])
    × (q.1.report_list ≡ 3 ∷ 4 ∷ [])
    × (lookup 3 q.1.orders ≡ some (record cheap_order { exec_price = some 640 }))
unfolding read_request split stoi verify verify_text refuses listed
handle_order-match_pass_example =
    handle_order-match_pass platform 4 sell_text sell_request waiting_trader (pos (4 * 2 ^ 32 + 1))
      next_source rich_account 3 [] cheap_order stock (λ t'. refl) refl refl
      (generate_nid-eq source (record { high = omega arith; low = omega arith }) (omega arith)).0
      refl refl refl refl (λ e. omega arith) refl refl
