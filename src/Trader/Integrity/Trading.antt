-- ===== src/Trader/Integrity/Trading.antt =====
-- A pass of `matchup` trades complete orders.
use inertia_trader.Common.{
  ℕ, ◌≡◌, refl, sym, ◌∙◌, subst, Bool, true, false, Option, none, some, List, [], ◌∷◌, ◌++◌, All,
  All-append, All-split, append_assoc, append-nil, codes, if◌then◌else◌,
}
use inertia_trader.Common.Action.{Action, ◌>>◌, modify}
use inertia_trader.Common.Action.Triple.{
  Triple, Preserves, Triple-bind, Triple-Preserves, Triple-last, Triple-modify, Triple-out,
  Triple-leave, Preserves-or_fault, Preserves-pure, preserve_rules,
}
use inertia_trader.Common.Map.{Map, lookup, assign, nat_key, lookup-assign_any}
use inertia_trader.Platform.{Platform}
use inertia_trader.Types.{Side}
use inertia_trader.Server.{quote_update}
use inertia_trader.Trader.{Order, Trader}
use inertia_trader.Trader.Books.{split_end}
use inertia_trader.Trader.Books.Sorted.{IsSorted, IsSorted-remove}
use inertia_trader.Trader.Matching.{execute, crosses, match_from, match_pass}
use inertia_trader.Trader.Holdings.{Holdings, holdings}
use inertia_trader.Trader.Holdings.Trading.{split_end-some, pass_with}
use inertia_trader.Trader.Integrity.{
  Sound, IsSound, Improves, IsComplete, Booked, Executed, Sound-assign, Executed-assign,
}
use inertia_trader.Trader.Integrity.Booking.{Preserves-on_server}
use inertia_trader.Trader.Integrity.Changes.{Triple-order_at, Preserves-order_at}

module _ {N : Type 0} where
  executed-Improves : (o : Order N) (x : N) → Improves o (record o { exec_price = some x })
  executed-Improves o x = record {
    complete = λ s k. record {
      price = k.price;
      conn = k.conn;
      serial = k.serial;
      has_price = k.has_price;
      has_conn = k.has_conn;
      has_serial = k.has_serial;
      has_side = k.has_side;
    };
    executed = λ _ _. (x, refl);
  }

  -- A pass at work: buy orders in front of the next ones, and the last sell order.
  abbrev AtWork : List ℕ → List ℕ → List ℕ → ℕ → Map ℕ (Order N) → Holdings → Type 0
  AtWork front bs sells s m h = Sound m h × (h.buys ≡ front ++ bs) × (h.sells ≡ sells ++ s ∷ [])

  abbrev Works : List ℕ → List ℕ → List ℕ → ℕ → Trader N → Type 0
  Works front bs sells s t = AtWork front bs sells s t.orders (holdings t)

  pub buy_at :
      (front : List ℕ) (b : ℕ) (bs : List ℕ) (m : Map ℕ (Order N)) (h : Holdings)
      → Sound m h
      → h.buys ≡ front ++ b ∷ bs
      → Booked m Side.buy b
  buy_at front b bs m h q e =
      (All-split (Booked m Side.buy) front (b ∷ bs) (subst (All (Booked m Side.buy)) e q.buys)).1.0

  pub sell_at :
      (sells : List ℕ) (s : ℕ) (m : Map ℕ (Order N)) (h : Holdings)
      → Sound m h
      → h.sells ≡ sells ++ s ∷ []
      → Booked m Side.sell s
  sell_at sells s m h q e =
      (All-split (Booked m Side.sell) sells (s ∷ [])
        (subst (All (Booked m Side.sell)) e q.sells)).1.0

  -- The price of the execution is written to a booked order.
  write-Executed :
      (m : Map ℕ (Order N)) (side : Side) (a : ℕ) (o : Order N) (x : N)
      → Booked m side a
      → lookup a m ≡ some o
      → Executed (assign a (record o { exec_price = some x }) m) a
  write-Executed m side a o x (d, e, k) at =
      let same : d ≡ o = cc (e, at) in
      (
        record o { exec_price = some x },
        side,
        x,
        lookup-assign_any a (record o { exec_price = some x }) m,
        (executed-Improves o x).complete side (subst (IsComplete side) same k),
        refl,
      )

  write-AtWork :
      (front bs sells : List ℕ) (s : ℕ) (m : Map ℕ (Order N)) (h : Holdings) (a : ℕ) (o : Order N)
      (x : N)
      → lookup a m ≡ some o
      → AtWork front bs sells s m h
      → AtWork front bs sells s (assign a (record o { exec_price = some x }) m) h
  write-AtWork front bs sells s m h a o x e (q, eb, es) =
      (Sound-assign m h a o (record o { exec_price = some x }) e (executed-Improves o x) q, eb, es)

module _ {N : Type 0} (P : Platform N) where
  execute-Triple :
      (front : List ℕ) (b : ℕ) (bs sells : List ℕ) (s : ℕ)
      → Triple
          (Works {N = N} front (b ∷ bs) sells s)
          (λ _. Works front (b ∷ bs) sells s)
          IsSound
          (execute P b s)
  unfolding execute
  execute-Triple front b bs sells s =
      let W : Trader N → Type 0 = Works front (b ∷ bs) sells s in
      let W1 : Trader N → Type 0 = λ t. W t × Executed t.orders b in
      let J : Map ℕ (Order N) → Holdings → Type 0 =
        λ m h. (AtWork front (b ∷ bs) sells s m h × Executed m b) × Executed m s in
      Triple-Preserves (Preserves-order_at W s) (λ _ w. w.0)
        λ ods.
          Triple-Preserves (Preserves-or_fault ods.order_price) (λ _ w. w.0)
            λ price.
              Triple-bind (λ odb t. W t × (lookup b t.orders ≡ some odb))
                (Triple-leave (Triple-order_at W b) (λ _ w. w.0))
                λ odb.
                  Triple-bind (λ _. W1)
                    (Triple-modify
                      (λ t. record t {
                        orders = assign b (record odb { exec_price = some price }) t.orders;
                      })
                      λ t w. (
                        write-AtWork front (b ∷ bs) sells s t.orders (holdings t) b odb price w.1
                            w.0,
                        write-Executed t.orders Side.buy b odb price
                            (buy_at front b bs t.orders (holdings t) w.0.0 w.0.1) w.1,
                      ))
                    λ _.
                      Triple-bind (λ ods' t. W1 t × (lookup s t.orders ≡ some ods'))
                        (Triple-leave (Triple-order_at W1 s) (λ _ w. w.0.0))
                        λ ods'.
                          Triple-bind (λ _ t. J t.orders (holdings t))
                            (Triple-modify
                              (λ t. record t {
                                orders =
                                    assign s (record ods' { exec_price = some price }) t.orders;
                              })
                              λ t w. (
                                (
                                  write-AtWork front (b ∷ bs) sells s t.orders (holdings t) s ods'
                                      price w.1 w.0.0,
                                  Executed-assign t.orders s ods'
                                      (record ods' { exec_price = some price }) w.1
                                      (executed-Improves ods' price) b w.0.1,
                                ),
                                write-Executed t.orders Side.sell s ods' price
                                    (sell_at sells s t.orders (holdings t) w.0.0.0 w.0.0.2) w.1,
                              ))
                            λ _.
                              Triple-Preserves
                                (Preserves-on_server J (quote_update P (codes "KKC") price))
                                (λ _ w. w.0.0.0)
                                λ _.
                                  Triple-modify
                                    (λ t. record t { report_list = t.report_list ++ b ∷ s ∷ [] })
                                    λ t w. (
                                      record {
                                        buys = w.0.0.0.buys;
                                        sells = w.0.0.0.sells;
                                        reports =
                                            All-append (Executed t.orders) t.report_list
                                              (b ∷ s ∷ []) w.0.0.0.reports (w.0.1, (w.1, tt));
                                        buys_sorted = w.0.0.0.buys_sorted;
                                        sells_sorted = w.0.0.0.sells_sorted;
                                      },
                                      w.0.0.1,
                                      w.0.0.2,
                                    )

  settle-IsSound :
      (front : List ℕ) (b : ℕ) (bs sells : List ℕ) (s : ℕ) (t : Trader N)
      → Works front (b ∷ bs) sells s t
      → IsSound (record t { raw_buyside = front ++ bs; raw_sellside = sells })
  settle-IsSound front b bs sells s t (q, eb, es) =
      let B = Booked t.orders Side.buy in
      let S = Booked t.orders Side.sell in
      let (before, (_, behind)) = All-split B front (b ∷ bs) (subst (All B) eb q.buys) in
      record {
        buys = All-append B front bs before behind;
        sells = (All-split S sells (s ∷ []) (subst (All S) es q.sells)).0;
        reports = q.reports;
        buys_sorted = IsSorted-remove b front bs (subst IsSorted eb q.buys_sorted);
        sells_sorted =
            subst IsSorted (append-nil sells)
              (IsSorted-remove s sells [] (subst IsSorted es q.sells_sorted));
      }

  Preserves-crosses : (I : Trader N → Type 0) (s : ℕ) → Preserves I (crosses P s)
  unfolding crosses
  Preserves-crosses I s = search (preserve_rules, Preserves-order_at) depth 16

  match_from-Triple :
      (front bs sells : List ℕ) (s : ℕ)
      → Triple
          (Works {N = N} front bs sells s)
          (λ _. IsSound)
          IsSound
          (match_from P front bs sells s)
  unfolding match_from
  match_from-Triple front [] sells s = Triple-last (Preserves-pure tt) (λ _ _ w. w.0) (λ _ w. w.0)
  match_from-Triple front (b ∷ bs) sells s =
      Triple-Preserves (Preserves-crosses (Works front (b ∷ bs) sells s) s) (λ _ w. w.0)
        (decide (match_from-Triple (front ++ b ∷ []) bs sells s))
    where
      settled : Action (Trader N) (Unit {0})
      settled = modify (λ t. record t { raw_buyside = front ++ bs; raw_sellside = sells })

      decide :
          Triple
            (Works {N = N} (front ++ b ∷ []) bs sells s)
            (λ _. IsSound)
            IsSound
            (match_from P (front ++ b ∷ []) bs sells s)
          → (hit : Bool)
          → Triple
              (Works {N = N} front (b ∷ bs) sells s)
              (λ _. IsSound)
              IsSound
              (if hit then execute P b s >> settled else match_from P (front ++ b ∷ []) bs sells s)
      decide later true =
          Triple-bind (λ _. Works front (b ∷ bs) sells s) (execute-Triple front b bs sells s)
            λ _.
              Triple-modify (λ t. record t { raw_buyside = front ++ bs; raw_sellside = sells })
                λ t w. settle-IsSound front b bs sells s t w
      decide later false = record {
        ends = λ t w. later.ends t (w.0, w.1 ∙ sym (append_assoc front (b ∷ []) bs), w.2);
      }

  pass_with-IsSound :
      (r : Option (List ℕ × ℕ)) (t : Trader N)
      → split_end t.raw_sellside ≡ r
      → IsSound t
      → IsSound (pass_with P t.raw_buyside r t).1
  pass_with-IsSound none t e q = q
  pass_with-IsSound (some (sells, s)) t e q =
      Triple-out (match_from-Triple [] t.raw_buyside sells s) t
        (q, refl, split_end-some t.raw_sellside sells s e)

  pub match_pass-IsSound : (t : Trader N) → IsSound t → IsSound (match_pass P t).1
  unfolding match_pass
  match_pass-IsSound t q = pass_with-IsSound (split_end t.raw_sellside) t refl q
