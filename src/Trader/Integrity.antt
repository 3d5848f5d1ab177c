-- ===== src/Trader/Integrity.antt =====
-- The orders that the raw books and the list of the reports hold, with their values
-- (src/InertiaTrader/trader.cpp).
pub mod Booking
pub mod Changes
pub mod Trading
pub mod Rounds
pub mod Passes
pub mod Drained
pub mod Arrival
pub mod Life
use inertia_trader.Common.{
  ℕ, ◌≡◌, ◌≢◌, sym, ap, ◌∙◌, subst, some, List, [], ◌∷◌, All, All-imp, Bool-cases, inl, inr, ◌==◌,
  ==_iff, arith,
}
use inertia_trader.Common.Int.{ℤ}
use inertia_trader.Common.Map.{Map, lookup, assign, nat_key, lookup-assign_any, lookup-assign_other}
use inertia_trader.Types.{Side}
use inertia_trader.Trader.{Order, Trader}
use inertia_trader.Trader.Books.{multiset_insert}
use inertia_trader.Trader.Books.Sorted.{IsSorted}
use inertia_trader.Trader.Holdings.{Holdings, holdings}

-- No book holds the order of this address, and neither does the list of the reports.
abbrev pub Unheld : ℕ → Holdings → Type 0
Unheld at h = All (λ a. a ≢ at) h.buys × All (λ a. a ≢ at) h.sells × All (λ a. a ≢ at) h.reports

both {ℓ κ μ} :
    {P : ℕ → Type ℓ} {Q : ℕ → Type κ} {R : ℕ → Type μ} (xs : List ℕ)
    → ((x : ℕ) → P x → Q x → R x)
    → All P xs
    → All Q xs
    → All R xs
both [] f _ _ = tt
both (x ∷ xs) f (p, ps) (q, qs) = (f x p q, both xs f ps qs)

pub All-multiset_insert {ℓ} :
    (P : ℕ → Type ℓ) (a : ℕ) (xs : List ℕ) → P a → All P xs → All P (multiset_insert a xs)
unfolding multiset_insert
All-multiset_insert P a [] p _ = (p, tt)
All-multiset_insert P a (x ∷ xs) p (q, qs) = ground (arith, All-multiset_insert P a xs p qs)

module _ {N : Type 0} where
  -- The values of an order that the matching and the reports read.
  pub record IsComplete (s : Side) (o : Order N) : Type 0 where
    pub price : N
    pub conn : ℤ
    pub serial : ℤ
    pub has_price : o.order_price ≡ some price
    pub has_conn : o.conn_id ≡ some conn
    pub has_serial : o.client_serial_num ≡ some serial
    pub has_side : o.side ≡ some s

  -- An order of a book of this side.
  abbrev pub Booked : Map ℕ (Order N) → Side → ℕ → Type 0
  Booked m s a = (o : Order N) × (lookup a m ≡ some o) × IsComplete s o

  -- An order that was traded.
  abbrev pub Executed : Map ℕ (Order N) → ℕ → Type 0
  Executed m a =
      (o : Order N) × (s : Side) × (exec : N) × (lookup a m ≡ some o)
      × IsComplete s o
      × (o.exec_price ≡ some exec)

  -- Each book is sorted by address and holds complete orders of its side, and the list of the
  -- reports holds executed ones.
  pub record Sound (m : Map ℕ (Order N)) (h : Holdings) : Type 0 where
    pub buys : All (Booked m Side.buy) h.buys
    pub sells : All (Booked m Side.sell) h.sells
    pub reports : All (Executed m) h.reports
    pub buys_sorted : IsSorted h.buys
    pub sells_sorted : IsSorted h.sells

  abbrev pub IsSound : Trader N → Type 0
  IsSound t = Sound t.orders (holdings t)

  -- What an order may become: it keeps its values, or gets others.
  pub record Improves (o o' : Order N) : Type 0 where
    pub complete : (s : Side) → IsComplete s o → IsComplete s o'
    pub executed : (x : N) → o.exec_price ≡ some x → (y : N) × (o'.exec_price ≡ some y)

  pub Booked-assign :
      (m : Map ℕ (Order N)) (a : ℕ) (o o' : Order N)
      → lookup a m ≡ some o
      → Improves o o'
      → (s : Side) (c : ℕ) → Booked m s c
      → Booked (assign a o' m) s c
  Booked-assign m a o o' e imp s c (d, ed, k) = elim (Bool-cases (c == a)) [
    | inl hit ↦
        let at : c ≡ a = (==_iff c a).0 hit in
        let same : d ≡ o = cc (ed, ap (λ x. lookup x m) at, e) in
        (
          o',
          ap (λ x. lookup x (assign a o' m)) at ∙ lookup-assign_any a o' m,
          imp.complete s (subst (IsComplete s) same k),
        )
    | inr other ↦ (d, lookup-assign_other a c o' m (λ p. cc (sym other ∙ (==_iff c a).1 p)) ∙ ed, k)
  ]

  pub Executed-assign :
      (m : Map ℕ (Order N)) (a : ℕ) (o o' : Order N)
      → lookup a m ≡ some o
      → Improves o o'
      → (c : ℕ) → Executed m c
      → Executed (assign a o' m) c
  Executed-assign m a o o' e imp c (d, s, x, ed, k, ex) = elim (Bool-cases (c == a)) [
    | inl hit ↦
        let at : c ≡ a = (==_iff c a).0 hit in
        let same : d ≡ o = cc (ed, ap (λ x. lookup x m) at, e) in
        let (y, ey) = imp.executed x (ap (λ (r : Order N). r.exec_price) (sym same) ∙ ex) in
        (
          o',
          s,
          y,
          ap (λ x. lookup x (assign a o' m)) at ∙ lookup-assign_any a o' m,
          imp.complete s (subst (IsComplete s) same k),
          ey,
        )
    | inr other ↦
        (d, s, x, lookup-assign_other a c o' m (λ p. cc (sym other ∙ (==_iff c a).1 p)) ∙ ed, k, ex)
  ]

  -- A write to an order that stays complete.
  pub Sound-assign :
      (m : Map ℕ (Order N)) (h : Holdings) (a : ℕ) (o o' : Order N)
      → lookup a m ≡ some o
      → Improves o o'
      → Sound m h
      → Sound (assign a o' m) h
  Sound-assign m h a o o' e imp q = record {
    buys = All-imp h.buys (Booked-assign m a o o' e imp Side.buy) q.buys;
    sells = All-imp h.sells (Booked-assign m a o o' e imp Side.sell) q.sells;
    reports = All-imp h.reports (Executed-assign m a o o' e imp) q.reports;
    buys_sorted = q.buys_sorted;
    sells_sorted = q.sells_sorted;
  }

  -- A write to an order that nothing holds.
  pub Sound-assign_free :
      (m : Map ℕ (Order N)) (h : Holdings) (at : ℕ) (o : Order N)
      → Unheld at h
      → Sound m h
      → Sound (assign at o m) h
  Sound-assign_free m h at o (ub, us, ur) q = record {
    buys = both h.buys (λ c ne (d, e, k). (d, lookup-assign_other at c o m ne ∙ e, k)) ub q.buys;
    sells = both h.sells (λ c ne (d, e, k). (d, lookup-assign_other at c o m ne ∙ e, k)) us q.sells;
    reports =
        both h.reports
          (λ c ne (d, s, x, e, k, ex). (d, s, x, lookup-assign_other at c o m ne ∙ e, k, ex)) ur
          q.reports;
    buys_sorted = q.buys_sorted;
    sells_sorted = q.sells_sorted;
  }
