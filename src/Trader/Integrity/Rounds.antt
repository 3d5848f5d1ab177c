-- ===== src/Trader/Integrity/Rounds.antt =====
-- The orders that are held, over the rounds of the four threads.
use inertia_trader.Common.{
  ℕ, ◌≡◌, refl, subst, Option, none, some, List, [], ◌∷◌, ◌++◌, All, All-split,
}
use inertia_trader.Common.Action.Triple.{
  Triple, Preserves, Triple-Preserves, Triple-modify, Triple-out, preserve_rules,
}
use inertia_trader.Common.Map.{Map, nat_key}
use inertia_trader.Platform.{Platform}
use inertia_trader.Trader.{Order, Trader}
use inertia_trader.Trader.Books.{split_end}
use inertia_trader.Trader.Reports.{send_exec_report, generate_exec_report}
use inertia_trader.Trader.Holdings.{Holdings, holdings}
use inertia_trader.Trader.Holdings.Trading.{split_end-some}
use inertia_trader.Trader.Holdings.Reporting.{report_with}
use inertia_trader.Trader.Holdings.Lifecycle.{Round, IsFresh, Runs, after_round}
use inertia_trader.Trader.Integrity.{Sound, IsSound, Executed}
use inertia_trader.Trader.Integrity.Booking.{Preserves-on_server, get_order-IsSound}
use inertia_trader.Trader.Integrity.Changes.{Preserves-order_at, Preserves-get_cancel_order}
use inertia_trader.Trader.Integrity.Trading.{match_pass-IsSound}

module _ {N : Type 0} (P : Platform N) where
  Preserves-send_exec_report :
      (J : Map ℕ (Order N) → Holdings → Type 0) (a : ℕ)
      → Preserves (λ t. J t.orders (holdings t)) (send_exec_report P a)
  unfolding send_exec_report
  Preserves-send_exec_report J a =
      search (preserve_rules, Preserves-order_at, Preserves-on_server J) depth 20

  report_with-IsSound :
      (r : Option (List ℕ × ℕ)) (t : Trader N)
      → split_end t.report_list ≡ r
      → IsSound t
      → IsSound (report_with P r t).1
  report_with-IsSound none t e q = q
  report_with-IsSound (some (front, a)) t e q =
      let J : Map ℕ (Order N) → Holdings → Type 0 =
        λ m h. Sound m h × (h.reports ≡ front ++ a ∷ []) in
      let reported : Triple (λ t. J t.orders (holdings t)) (λ _. IsSound) IsSound
          (report_with P (some (front, a))) =
        Triple-Preserves (Preserves-send_exec_report J a) (λ _ i. i.0)
          λ _.
            Triple-modify (λ t. record t { report_list = front })
              λ t i. record {
                buys = i.0.buys;
                sells = i.0.sells;
                reports =
                    (All-split (Executed t.orders) front (a ∷ [])
                      (subst (All (Executed t.orders)) i.1 i.0.reports)).0;
                buys_sorted = i.0.buys_sorted;
                sells_sorted = i.0.sells_sorted;
              } in
      Triple-out reported t (q, split_end-some t.report_list front a e)

  generate_exec_report-IsSound : (t : Trader N) → IsSound t → IsSound (generate_exec_report P t).1
  unfolding generate_exec_report
  generate_exec_report-IsSound t q = report_with-IsSound (split_end t.report_list) t refl q

  after_round-IsSound :
      (r : Round N) (t : Trader N) → IsFresh r t → IsSound t → IsSound (after_round P r t)
  unfolding after_round
  after_round-IsSound (Round.order_round at) t fresh q = get_order-IsSound P at t fresh q
  after_round-IsSound Round.change_round t fresh q = (Preserves-get_cancel_order P).keeps t q
  after_round-IsSound Round.match_round t fresh q = match_pass-IsSound P t q
  after_round-IsSound Round.report_round t fresh q = generate_exec_report-IsSound t q
  after_round-IsSound (Round.server_round s) t fresh q = q

  -- Over any sequence of whole rounds of the threads, however each ends, where the heap gives no
  -- address of an order that is held: each order of a raw book lies on the heap with its price, its
  -- connection, its serial number and the side of that book, and so does each order of the list of
  -- the reports, with a side and with a price of its execution too; the raw books stay sorted.
  pub Runs-IsSound : (from t : Trader N) → Runs P from t → IsSound from → IsSound t
  Runs-IsSound from t Runs.start q = q
  Runs-IsSound from _ (Runs.later {t = t} r run fresh) q =
      after_round-IsSound r t fresh (Runs-IsSound from t run q)
