-- ===== src/Trader/Holdings/Reporting.antt =====
-- A round of `generateExecReport` takes orders from the list of the reports only.
use inertia_trader.Common.{ℕ, ◌≤◌, ◌≡◌, refl, ap, Option, none, some, List, [], ◌∷◌, arith}
use inertia_trader.Common.Action.{Action, ◌>>◌, pure, modify}
use inertia_trader.Common.Action.Post.{any-Post, Keeps-Post}
use inertia_trader.Platform.{Platform}
use inertia_trader.Trader.{Trader}
use inertia_trader.Trader.Books.{split_end}
use inertia_trader.Trader.Books.Sorted.{count}
use inertia_trader.Trader.Reports.{send_exec_report, generate_exec_report}
use inertia_trader.Trader.Holdings.{Holdings, holdings, total}
use inertia_trader.Trader.Holdings.Quiet.{Keeps-send_exec_report}
use inertia_trader.Trader.Holdings.Trading.{count-append, split_end-some}

-- No address is held more often than before.
abbrev pub Shrunk : Holdings → Holdings → Type 0
Shrunk h x = (c : ℕ) → total c x ≤ total c h

module _ {N : Type 0} (P : Platform N) where
  abbrev pub report_with : Option (List ℕ × ℕ) → Action (Trader N) (Unit {0})
  report_with r = elim r [
    | none ↦ pure tt
    | some (front, a) ↦ send_exec_report P a >> modify (λ t. record t { report_list = front })
  ]

  report_with-Shrunk :
      (r : Option (List ℕ × ℕ)) (t : Trader N)
      → split_end t.report_list ≡ r
      → Shrunk (holdings t) (holdings (report_with r t).1)
  report_with-Shrunk none t e = λ c. omega arith
  report_with-Shrunk (some (front, a)) t e =
      let G = Shrunk (holdings t) in
      any-Post holdings G (report_with (some (front, a)) t) (
        Keeps-Post holdings G G (holdings t) (send_exec_report P a)
          (λ _. modify (λ t. record t { report_list = front })) t refl (Keeps-send_exec_report P a)
          (λ c. omega arith)
          λ _ t' e' c. omega (
            arith,
            ap (λ x. count c x.buys) e',
            ap (λ x. count c x.sells) e',
            ap (count c) (split_end-some t.report_list front a e),
            count-append c front (a ∷ []),
          ))

  pub generate_exec_report-Shrunk :
      (t : Trader N) → Shrunk (holdings t) (holdings (generate_exec_report P t).1)
  unfolding generate_exec_report
  generate_exec_report-Shrunk t = report_with-Shrunk (split_end t.report_list) t refl
