-- ===== src/Trader/Matching/Reported.antt =====
-- What a trade leaves on its two orders, and in the list of the reports.
use inertia_trader.Common.{ℕ, ◌≡◌, ◌≢◌, sym, ap, ◌∙◌, some, [], ◌∷◌, ◌++◌, codes}
use inertia_trader.Common.Map.{
  lookup, assign, nat_key, text_key, lookup-assign_self, lookup-assign_ne,
}
use inertia_trader.Common.Action.{ok}
use inertia_trader.Common.Action.Laws.{>>=-ok, or_fault->>=}
use inertia_trader.Platform.{Platform}
use inertia_trader.Types.{Stock}
use inertia_trader.Server.{Server, quote_at, quote_update, updated_stock}
use inertia_trader.Trader.{Order, Trader, on_server}
use inertia_trader.Trader.Matching.{execute}

module _ {N : Type 0} (P : Platform N) where
  -- The server after an update of a name that is quoted.
  abbrev quoted : N → Stock N → Server N → Server N
  quoted price st s = record s {
    quotes_list = assign (codes "KKC") (some (updated_stock P price st)) s.quotes_list;
  }

  quote_update-quoted :
      (price : N) (st : Stock N) (s : Server N)
      → lookup (codes "KKC") s.quotes_list ≡ some (some st)
      → quote_update P (codes "KKC") price s ≡ (ok tt, quoted price st s)
  unfolding quote_update quote_at
  quote_update-quoted price st s e =
      rw (quote_update, >>=-ok (quote_at (codes "KKC")) _ s s st (rw (quote_at, e)))

  -- A trade of two orders that are on the heap, while the product is quoted: both get the price of the
  -- sell order as the price of the execution, and are reported behind the reports that were there, the
  -- buy order first.
  pub execute-reports :
      (b s : ℕ) (t : Trader N) (odb ods : Order N) (price : N) (st : Stock N)
      → b ≢ s
      → lookup b t.orders ≡ some odb
      → lookup s t.orders ≡ some ods
      → ods.order_price ≡ some price
      → lookup (codes "KKC") t.sr.quotes_list ≡ some (some st)
      → let t' = (execute P b s t).1 in
        ((execute P b s t).0 ≡ ok tt)
        × (lookup b t'.orders ≡ some (record odb { exec_price = some price }))
        × (lookup s t'.orders ≡ some (record ods { exec_price = some price }))
        × (t'.report_list ≡ t.report_list ++ b ∷ s ∷ [])
  unfolding execute
  execute-reports b s t odb ods price st ne hb hs hp hq =
      let odb' : Order N = record odb { exec_price = some price } in
      let ods' : Order N = record ods { exec_price = some price } in
      let m1 = assign b odb' t.orders in
      let m2 = assign s ods' m1 in
      let s1 : lookup s m1 ≡ some ods =
        lookup-assign_ne b s odb' odb t.orders hb (λ e. ne (sym e)) ∙ hs in
      let b2 : lookup b m2 ≡ some odb' =
        lookup-assign_ne s b ods' ods m1 s1 ne ∙ lookup-assign_self b odb' odb t.orders hb in
      let t2 : Trader N = record t { orders = m2 } in
      let t3 : Trader N = record t2 { sr = quoted price st t.sr } in
      let whole : execute P b s t
          ≡ (ok tt, record t3 { report_list = t.report_list ++ b ∷ s ∷ [] }) =
        rw (
          execute,
          or_fault->>= _ t hs,
          or_fault->>= _ t hp,
          or_fault->>= _ t hb,
          or_fault->>= _ (record t { orders = m1 }) s1,
          >>=-ok (on_server (quote_update P (codes "KKC") price)) _ t2 t3 tt
              (ap (λ q. (q.0, record t2 { sr = q.1 })) (quote_update-quoted price st t.sr hq)),
        ) in
      (
        ap (λ r. r.0) whole,
        ap (λ r. lookup b r.1.orders) whole ∙ b2,
        ap (λ r. lookup s r.1.orders) whole ∙ lookup-assign_self s ods' ods m1 s1,
        ap (λ r. r.1.report_list) whole,
      )
