-- ===== src/Trader/Holdings/Trading.antt =====
-- A pass of `matchup` moves orders from the raw books to the list of the reports.
use inertia_trader.Common.{
  ℕ, ◌+◌, ◌≡◌, refl, sym, ap, ◌∙◌, Bool, true, false, Option, none, some, List, [], ◌∷◌, ◌++◌,
  codes, append_assoc, if◌then◌else◌, arith, Option-cases, inl, inr,
}
use inertia_trader.Common.Map.{nat_key}
use inertia_trader.Common.Action.{Action, ◌>>◌, pure, modify}
use inertia_trader.Common.Action.Post.{Post, Post-bind, any-Post, Keeps-Post, Keeps-or_fault}
use inertia_trader.Platform.{Platform}
use inertia_trader.Server.{quote_update}
use inertia_trader.Trader.{Trader}
use inertia_trader.Trader.Books.{split_end}
use inertia_trader.Trader.Books.Sorted.{count}
use inertia_trader.Trader.Matching.{execute, match_from, match_pass}
use inertia_trader.Trader.Holdings.{Holdings, holdings, total, Keeps-on_server, Keeps-put_order}
use inertia_trader.Trader.Holdings.Quiet.{Keeps-order_at, Keeps-crosses}

pub count-append : (c : ℕ) (xs ys : List ℕ) → count c (xs ++ ys) ≡ count c xs + count c ys
count-append c [] ys = omega arith
count-append c (x ∷ xs) ys = ground (arith, count-append c xs ys)

pub split_end-none : (xs : List ℕ) → split_end xs ≡ none → xs ≡ []
unfolding split_end
split_end-none [] e = refl
split_end-none (x ∷ xs) e = elim (Option-cases (split_end xs)) [
  | inl none_left ↦ cc
  | inr ((f, b), some_left) ↦ cc
]

pub split_end-some :
    (xs front : List ℕ) (a : ℕ) → split_end xs ≡ some (front, a) → xs ≡ front ++ a ∷ []
unfolding split_end
split_end-some [] front a e = cc
split_end-some (x ∷ xs) front a e = elim (Option-cases (split_end xs)) [
  | inl none_left ↦ ground (arith, split_end-none xs none_left)
  | inr ((f, b), some_left) ↦ ground (arith, split_end-some xs f b some_left)
]

-- Each address is held as often as before.
abbrev pub Conserved : Holdings → Holdings → Type 0
Conserved h x = (c : ℕ) → total c x ≡ total c h

-- One buy order and one sell order leave their books, and are reported.
traded-Conserved :
    (front bs sells : List ℕ) (b s : ℕ) (h x : Holdings)
    → h.buys ≡ front ++ b ∷ bs
    → h.sells ≡ sells ++ s ∷ []
    → x.buys ≡ front ++ bs
    → x.sells ≡ sells
    → x.reports ≡ h.reports ++ b ∷ s ∷ []
    → Conserved h x
traded-Conserved front bs sells b s h x hb hs xb xs xr c =
    rw (hb, hs, xb, xs, xr)
      (omega (
        arith,
        count-append c front (b ∷ bs),
        count-append c (b ∷ []) bs,
        count-append c front bs,
        count-append c sells (s ∷ []),
        count-append c h.reports (b ∷ s ∷ []),
        count-append c (b ∷ []) (s ∷ []),
      ))

module _ {N : Type 0} (P : Platform N) where
  execute-Post :
      (G : Holdings → Type 0) (b s : ℕ) (t : Trader N) (h : Holdings)
      → holdings t ≡ h
      → G h
      → Post holdings (λ x. x ≡ record h { reports = h.reports ++ b ∷ s ∷ [] }) G (execute P b s t)
  unfolding execute
  execute-Post G b s t h e g =
      let F : Holdings → Type 0 = λ x. x ≡ record h { reports = h.reports ++ b ∷ s ∷ [] } in
      Keeps-Post holdings F G h _ _ t e (Keeps-order_at P s) g λ ods t1 e1.
        Keeps-Post holdings F G h _ _ t1 e1 (Keeps-or_fault holdings ods.order_price) g
          λ price t2 e2. Keeps-Post holdings F G h _ _ t2 e2 (Keeps-order_at P b) g λ odb t3 e3.
            Keeps-Post holdings F G h _ _ t3 e3
              (Keeps-put_order b (record odb { exec_price = some price })) g
              λ _ t4 e4. Keeps-Post holdings F G h _ _ t4 e4 (Keeps-order_at P s) g λ ods' t5 e5.
                Keeps-Post holdings F G h _ _ t5 e5
                  (Keeps-put_order s (record ods' { exec_price = some price })) g
                  λ _ t6 e6.
                    Keeps-Post holdings F G h _
                      (λ _. modify (λ t. record t { report_list = t.report_list ++ b ∷ s ∷ [] })) t6
                      e6 (Keeps-on_server (quote_update P (codes "KKC") price)) g
                      λ _ t7 e7. λ i. record (e7 i) { reports = (e7 i).reports ++ b ∷ s ∷ [] }

  match_from-Post :
      (front bs sells : List ℕ) (s : ℕ) (t : Trader N) (h : Holdings)
      → holdings t ≡ h
      → h.buys ≡ front ++ bs
      → h.sells ≡ sells ++ s ∷ []
      → Post holdings (Conserved h) (Conserved h) (match_from P front bs sells s t)
  unfolding match_from
  match_from-Post front [] sells s t h e hb hs = λ c. ap (total c) e
  match_from-Post front (b ∷ bs) sells s t h e hb hs =
      Keeps-Post holdings (Conserved h) (Conserved h) h _ _ t e (Keeps-crosses P s) (λ _. refl)
        (decide λ t' e'.
          match_from-Post (front ++ b ∷ []) bs sells s t' h e'
            (hb ∙ sym (append_assoc front (b ∷ []) bs)) hs)
    where
      settled : Action (Trader N) (Unit {0})
      settled = modify (λ t. record t { raw_buyside = front ++ bs; raw_sellside = sells })

      decide :
          ((t' : Trader N)
            → holdings t' ≡ h
            → Post holdings
                (Conserved h)
                (Conserved h)
                (match_from P (front ++ b ∷ []) bs sells s t'))
          → (hit : Bool) (t' : Trader N) → holdings t' ≡ h
          → Post holdings (Conserved h) (Conserved h) (
              (if hit then execute P b s >> settled else match_from P (front ++ b ∷ []) bs sells s)
                t')
      decide later true t' e' =
          Post-bind holdings (λ x. x ≡ record h { reports = h.reports ++ b ∷ s ∷ [] }) (Conserved h)
            (Conserved h) (execute P b s) (λ _. settled) t'
            (execute-Post (Conserved h) b s t' h e' (λ _. refl))
            λ _ t2 e2.
              traded-Conserved front bs sells b s h _ hb hs refl refl (ap (λ x. x.reports) e2)
      decide later false t' e' = later t' e'

  -- A pass, by the last sell order and those in front of it.
  abbrev pub pass_with : List ℕ → Option (List ℕ × ℕ) → Action (Trader N) (Unit {0})
  pass_with buys r = elim r [ none ↦ pure tt | some (sells, s) ↦ match_from P [] buys sells s ]

  -- However a pass of the matching ends, each order is held as often behind it as before.
  pub match_pass-Conserved : (t : Trader N) → Conserved (holdings t) (holdings (match_pass P t).1)
  unfolding match_pass
  match_pass-Conserved t = started (split_end t.raw_sellside) refl
    where
      started :
          (r : Option (List ℕ × ℕ))
          → split_end t.raw_sellside ≡ r
          → Conserved (holdings t) (holdings (pass_with t.raw_buyside r t).1)
      started none e = λ _. refl
      started (some (sells, s)) e =
          any-Post holdings (Conserved (holdings t)) (match_from P [] t.raw_buyside sells s t) (
            match_from-Post [] t.raw_buyside sells s t (holdings t) refl refl
              (split_end-some t.raw_sellside sells s e))
