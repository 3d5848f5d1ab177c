-- ===== src/Trader/Holdings/Lifecycle.antt =====
-- The rounds of the four threads of a trader, one after the other, in any order.
use inertia_trader.Common.{
  ℕ, ◌≤◌, ◌≡◌, refl, sym, ap, ◌∙◌, subst, true, false, [], ◌∷◌, ◌==◌, Bool-cases, inl, inr, ==_iff,
  arith,
}
use inertia_trader.Platform.{Platform}
use inertia_trader.Server.{Server}
use inertia_trader.Trader.{Trader}
use inertia_trader.Trader.Books.Sorted.{count}
use inertia_trader.Trader.Orders.{get_order}
use inertia_trader.Trader.Changes.{get_cancel_order}
use inertia_trader.Trader.Matching.{match_pass}
use inertia_trader.Trader.Reports.{generate_exec_report}
use inertia_trader.Trader.Holdings.{Holdings, holdings, total}
use inertia_trader.Trader.Holdings.Changes.{get_cancel_order-holdings}
use inertia_trader.Trader.Holdings.Trading.{match_pass-Conserved}
use inertia_trader.Trader.Holdings.Reporting.{generate_exec_report-Shrunk}
use inertia_trader.Trader.Holdings.Booking.{Grown, get_order-Grown}

-- A round of a thread; `new Order` gives the address of an order. Meanwhile the threads of the server
-- may leave any server.
pub data Round (N : Type 0) : Type 0 where
  order_round : ℕ → Round N
  change_round match_round report_round : Round N
  server_round : Server N → Round N

-- `new Order` does not give the address of an order that a book or the list of the reports holds.
abbrev pub IsFresh : {N : Type 0} → Round N → Trader N → Type 0
IsFresh (Round.order_round at) t = total at (holdings t) ≡ 0
IsFresh Round.change_round t = Unit
IsFresh Round.match_round t = Unit
IsFresh Round.report_round t = Unit
IsFresh (Round.server_round s) t = Unit

module _ {N : Type 0} (P : Platform N) where
  unfoldable pub after_round : Round N → Trader N → Trader N
  after_round (Round.order_round at) t = (get_order P at t).1
  after_round Round.change_round t = (get_cancel_order P t).1
  after_round Round.match_round t = (match_pass P t).1
  after_round Round.report_round t = (generate_exec_report P t).1
  after_round (Round.server_round s) t = record t { sr = s }

  pub data Runs (from : Trader N) : Trader N → Type 0 where
    start : Runs from from
    later : {t : Trader N} (r : Round N) → Runs from t → IsFresh r t → Runs from (after_round r t)

-- No address is held twice.
abbrev pub IsSingle : Holdings → Type 0
IsSingle h = (c : ℕ) → total c h ≤ 1

module _ {N : Type 0} (P : Platform N) where
  count_one : (c at : ℕ) → count c (at ∷ []) ≤ 1
  count_one c at = ground arith

  count_other : (c at : ℕ) → (c == at) ≡ false → count c (at ∷ []) ≡ 0
  count_other c at other = rw other refl

  fresh_hit : (at c : ℕ) (h : Holdings) → (c == at) ≡ true → total at h ≡ 0 → total c h ≡ 0
  fresh_hit at c h hit fresh = ap (λ n. total n h) ((==_iff c at).0 hit) ∙ fresh

  Grown-IsSingle :
      (at : ℕ) (h x : Holdings) → total at h ≡ 0 → Grown at h x → IsSingle h → IsSingle x
  Grown-IsSingle at h x fresh grown single c = elim (Bool-cases (c == at)) [
    | inl hit ↦ omega (arith, grown c, fresh_hit at c h hit fresh, count_one c at)
    | inr other ↦ omega (arith, grown c, single c, count_other c at other)
  ]

  after_round-IsSingle :
      (r : Round N) (t : Trader N)
      → IsFresh r t
      → IsSingle (holdings t)
      → IsSingle (holdings (after_round P r t))
  unfolding after_round
  after_round-IsSingle (Round.order_round at) t fresh single =
      Grown-IsSingle at (holdings t) (holdings (get_order P at t).1) fresh (get_order-Grown P at t)
        single
  after_round-IsSingle Round.change_round t fresh single =
      subst IsSingle (sym (get_cancel_order-holdings P t)) single
  after_round-IsSingle Round.match_round t fresh single =
      λ c. subst (λ n. n ≤ 1) (sym (match_pass-Conserved P t c)) (single c)
  after_round-IsSingle Round.report_round t fresh single =
      λ c. omega (arith, generate_exec_report-Shrunk P t c, single c)
  after_round-IsSingle (Round.server_round s) t fresh single = single

  -- Where the heap gives no address of an order that is held, an order lies in one place at most,
  -- and once: in the book of the buyers, in that of the sellers, or in the list of the reports. The
  -- rounds run one after the other here.
  pub Runs-IsSingle :
      (from t : Trader N) → Runs P from t → IsSingle (holdings from) → IsSingle (holdings t)
  Runs-IsSingle from t Runs.start single = single
  Runs-IsSingle from _ (Runs.later {t = t} r run fresh) single =
      after_round-IsSingle r t fresh (Runs-IsSingle from t run single)
