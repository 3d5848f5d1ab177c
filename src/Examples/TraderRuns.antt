-- ===== src/Examples/TraderRuns.antt =====
-- The trader's checks, books, trades and cancellations at concrete inputs.
use inertia_trader.Common.{
  ℕ, ◌+◌, ◌*◌, ◌^◌, ◌≡◌, refl, inl, true, Option, some, List, [], ◌∷◌, ◌++◌, Text, codes, arith,
}
use inertia_trader.Common.Int.{ℤ, pos}
use inertia_trader.Common.Action.{ok, fault, ◌>>◌, modify}
use inertia_trader.Funclib.Split.{split}
use inertia_trader.Types.{Side, OrderStatus, UserData, OrderData}
use inertia_trader.Database.{update_situation_query}
use inertia_trader.Server.Messages.{tagged}
use inertia_trader.Trader.{Trader}
use inertia_trader.Trader.Nid.{NidSource, new_source}
use inertia_trader.Trader.Nid.Unique.{generate_nid-eq, keys, Ascends, keys-Ascends}
use inertia_trader.Common.Decimal.{stoi}
use inertia_trader.Common.Map.{lookup, nat_key}
use inertia_trader.Trader.Risk.{verify, verify_text, refuses, listed}
use inertia_trader.Trader.Risk.Band.{Judged, verify-Judged}
use inertia_trader.Common.Floats.{DoubleLaws}
use inertia_trader.Trader.Orders.{Request, handle_order, read_request}
use inertia_trader.Trader.Orders.Outcomes.{Account}
use inertia_trader.Trader.Orders.Placement.{books, entered}
use inertia_trader.Trader.Orders.Accepted.{handle_order-books}
use inertia_trader.Trader.Orders.Sender.{handle_order-sender}
use inertia_trader.Trader.Changes.{cancel_order, modify_order}
use inertia_trader.Trader.Changes.Answers.{Names, heard}
use inertia_trader.Trader.Changes.Told.{cancel_order-told}
use inertia_trader.Trader.Changes.Effects.{modify_order-sell_fault}
use inertia_trader.Trader.Startup.{load_all}
use inertia_trader.Trader.Startup.Loading.{Loaded, load_all-Loaded}
use inertia_trader.Trader.Matching.{execute, match_pass}
use inertia_trader.Trader.Matching.Reported.{execute-reports}
use inertia_trader.Trader.Matching.Trades.{Prices, match_pass-trade}
use inertia_trader.Examples.{
  tenths, platform, connection, user, server, stock, trader, request, buy_order, sell_order,
  cheap_order,
}

keys-Ascends_example : Ascends 0 (keys 3 (new_source 12345))
keys-Ascends_example = keys-Ascends 3 12345 (omega arith)

abbrev pub source : NidSource
source = record { nid_sub1 = 4; nid_sub2 = 1 }

abbrev pub next_source : NidSource
next_source = record { nid_sub1 = 4; nid_sub2 = 2 }

abbrev basics : List Text
basics = codes "a" ∷ codes "b" ∷ codes "60" ∷ []

abbrev tenths_value : ℕ → Option ℕ
tenths_value n = some n

abbrev TenthsNan : ℕ → Type 0
TenthsNan n = ⊥

tenths-DoubleLaws : DoubleLaws tenths tenths_value TenthsNan
tenths-DoubleLaws = record {
  lt_value = λ a b x y e f. cc;
  lt_nan = λ a b nan. absurd nan;
  product_le = λ a n x y small e f. ground arith;
  product_ge = λ a n x y small e f. ground arith;
}

verify-Judged_example :
    verify tenths (codes "KKC" ∷ []) basics 620 (codes "KKC") ≡ ok OrderStatus.verified
verify-Judged_example =
    verify-Judged tenths tenths_value TenthsNan tenths-DoubleLaws 600 620 600 660 540 refl refl refl
      (codes "KKC" ∷ []) basics (codes "KKC") (codes "60") OrderStatus.verified refl refl
      (Judged.within 620 refl (omega arith, omega arith) (inl refl))

abbrev rich_user : UserData ℕ
rich_user = record user { balance = 1000000 }

abbrev pub rich_trader : Trader ℕ
rich_trader = record trader { sr = record server { user_list = (codes "ann", rich_user) ∷ [] } }

abbrev pub rich_account : Account (pos 3) rich_trader.sr
rich_account = record {
  address = 0;
  connection = connection;
  user = rich_user;
  stored = refl;
  alive = refl;
  registered = refl;
}

abbrev account : Account (pos 3) trader.sr
account = record {
  address = 0;
  connection = connection;
  user = user;
  stored = refl;
  alive = refl;
  registered = refl;
}

-- a message with the id of its connection, and what is read of it, at two prices
abbrev pub order_text : Text → Text
order_text price = codes "87|7|" ++ (price ++ codes "|1|1|1|KKC|3|")

abbrev request_at : ℕ → Request ℕ
request_at price = record request { price = price }

handle_order-books_example :
    books (handle_order platform 4 (order_text (codes "60")) rich_trader).1
    ≡ entered Side.buy 4 (books rich_trader)
unfolding read_request split stoi verify verify_text refuses listed
handle_order-books_example =
    handle_order-books platform 4 (order_text (codes "60")) (request_at 600) rich_trader
      (pos (4 * 2 ^ 32 + 1)) next_source rich_account (λ t'. refl) refl refl
      (generate_nid-eq source (record { high = omega arith; low = omega arith }) (omega arith)).0

execute-reports_example :
    let t' = (execute platform 1 2 trader).1 in
    ((execute platform 1 2 trader).0 ≡ ok tt)
    × (lookup 1 t'.orders ≡ some (record buy_order { exec_price = some 600 }))
    × (lookup 2 t'.orders ≡ some (record sell_order { exec_price = some 600 }))
    × (t'.report_list ≡ 1 ∷ 2 ∷ [])
execute-reports_example =
    execute-reports platform 1 2 trader buy_order sell_order 600 stock (λ e. omega arith) refl refl
      refl refl

abbrev spoofed : Text
spoofed = codes "87|7|61|1|1|1|K|9|"

handle_order-sender_example :
    handle_order platform 4 (tagged spoofed (pos 3)) trader ≡ handle_order platform 4 spoofed trader
unfolding split
handle_order-sender_example =
    handle_order-sender platform 4 spoofed (pos 3) trader (ground arith) (omega arith)

abbrev pub cancel_fields : Text → Text → List Text
cancel_fields nid side =
    codes "88" ∷ nid ∷ codes "60" ∷ side ∷ codes "1" ∷ codes "1" ∷ codes "KKC" ∷ codes "3" ∷ []

cancel-Names : Names (cancel_fields (codes "7") (codes "1")) (codes "7") (pos 3)
unfolding stoi
cancel-Names = record { conn_text = codes "3"; has_nid = refl; has_conn = refl; number = refl }

cancel_order-told_example :
    cancel_order platform (cancel_fields (codes "7") (codes "1")) trader
    ≡ heard platform
        (pos 3)
        ((codes "7" ++ codes "|cancel order success") ++ codes "\n")
        (update_situation_query (codes "7") (codes "3"))
        (record trader { buyside = 3 ∷ [] })
cancel_order-told_example =
    cancel_order-told platform true (cancel_fields (codes "7") (codes "1")) (codes "7") (pos 3)
      trader (3 ∷ []) 1 [] cancel-Names refl refl (buy_order, refl, refl)
      ((cheap_order, refl, refl), tt)

modify_order-sell_fault_example :
    modify_order platform (cancel_fields (codes "8") (codes "2")) trader ≡ (fault, trader)
modify_order-sell_fault_example =
    modify_order-sell_fault platform (cancel_fields (codes "8") (codes "2")) (codes "8") trader refl
      refl ((cheap_order, refl, refl), ((buy_order, refl, refl), tt)) refl

abbrev crossing : Prices platform trader 2
crossing = record {
  newest = 1;
  last = buy_order;
  bid = 610;
  ods = sell_order;
  ask = 600;
  is_newest = refl;
  newest_at = refl;
  has_bid = refl;
  sell_at = refl;
  has_ask = refl;
}

match_pass-trade_example :
    match_pass platform trader
    ≡ (execute platform 1 2 >> modify (λ t. record t { raw_buyside = 3 ∷ []; raw_sellside = [] }))
        trader
match_pass-trade_example = match_pass-trade platform trader 1 (3 ∷ []) [] 2 crossing refl refl refl

abbrev apart : Trader ℕ
apart = record trader { od = some 3 }

abbrev below : Prices platform apart 2
below = record {
  newest = 3;
  last = cheap_order;
  bid = 590;
  ods = sell_order;
  ask = 600;
  is_newest = refl;
  newest_at = refl;
  has_bid = refl;
  sell_at = refl;
  has_ask = refl;
}

abbrev row : ℤ → OrderData ℕ
row side = record {
  nid = codes "5";
  order_price = 600;
  symbol = [];
  user_id = [];
  side = side;
  client_serialnum = pos 1;
}

load_all-Loaded_example :
    ((load_all 4 (row (pos 1) ∷ row (pos 2) ∷ []) trader).0 ≡ ok tt)
    × Loaded 4
        (row (pos 1) ∷ row (pos 2) ∷ [])
        trader
        (load_all 4 (row (pos 1) ∷ row (pos 2) ∷ []) trader).1
load_all-Loaded_example = load_all-Loaded 4 (row (pos 1) ∷ row (pos 2) ∷ []) trader
