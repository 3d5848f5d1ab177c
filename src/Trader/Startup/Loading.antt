-- ===== src/Trader/Startup/Loading.antt =====
-- Where the orders of the database go when the trader starts.
use inertia_trader.Common.{
  ℕ, suc, ◌≡◌, refl, sym, ◌∙◌, Bool, true, false, List, [], ◌∷◌, ◌++◌, append-nil, append_assoc,
}
use inertia_trader.Common.Int.{pos, int_eq}
use inertia_trader.Common.Map.{assign, nat_key}
use inertia_trader.Common.Action.{ok}
use inertia_trader.Types.{OrderData}
use inertia_trader.Trader.{Trader}
use inertia_trader.Trader.Startup.{load_all, loaded_order, enter_if}

-- A row in front of the others of its kind.
abbrev pub put_row : Bool → Bool → ℕ → List ℕ → List ℕ
put_row true true a rest = a ∷ rest
put_row true false a rest = rest
put_row false true a rest = rest
put_row false false a rest = a ∷ rest

module _ {N : Type 0} where
  -- The addresses, counted from the first, of the rows of one kind: those of a buy order, or the others.
  abbrev pub rows_of : Bool → ℕ → List (OrderData N) → List ℕ
  rows_of bought a [] = []
  rows_of bought a (d ∷ ds) = put_row (int_eq d.side (pos 1)) bought a (rows_of bought (suc a) ds)

  -- The four books after a loading.
  pub record Loaded (a : ℕ) (ds : List (OrderData N)) (t t' : Trader N) : Type 0 where
    pub buys : t'.buyside ≡ t.buyside ++ rows_of true a ds
    pub sells : t'.sellside ≡ t.sellside ++ rows_of false a ds
    pub raw_buys : t'.raw_buyside ≡ t.raw_buyside
    pub raw_sells : t'.raw_sellside ≡ t.raw_sellside

  enter_if-buyside :
      (b : Bool) (a : ℕ) (t : Trader N) (rest : List ℕ)
      → (enter_if b a t).buyside ++ rest ≡ t.buyside ++ put_row b true a rest
  enter_if-buyside true a t rest = append_assoc t.buyside (a ∷ []) rest
  enter_if-buyside false a t rest = refl

  enter_if-sellside :
      (b : Bool) (a : ℕ) (t : Trader N) (rest : List ℕ)
      → (enter_if b a t).sellside ++ rest ≡ t.sellside ++ put_row b false a rest
  enter_if-sellside true a t rest = refl
  enter_if-sellside false a t rest = append_assoc t.sellside (a ∷ []) rest

  enter_if-raw_buyside :
      (b : Bool) (a : ℕ) (t : Trader N) → (enter_if b a t).raw_buyside ≡ t.raw_buyside
  enter_if-raw_buyside true a t = refl
  enter_if-raw_buyside false a t = refl

  enter_if-raw_sellside :
      (b : Bool) (a : ℕ) (t : Trader N) → (enter_if b a t).raw_sellside ≡ t.raw_sellside
  enter_if-raw_sellside true a t = refl
  enter_if-raw_sellside false a t = refl

  -- The loading of rows ends, and puts those of buy orders behind the buy book and all others behind
  -- the sell book, each in their order; the books that are matched stay as they were.
  pub load_all-Loaded :
      (a : ℕ) (ds : List (OrderData N)) (t : Trader N)
      → ((load_all a ds t).0 ≡ ok tt) × Loaded a ds t (load_all a ds t).1
  unfolding load_all
  load_all-Loaded a [] t = (
    refl,
    record {
      buys = sym (append-nil t.buyside);
      sells = sym (append-nil t.sellside);
      raw_buys = refl;
      raw_sells = refl;
    },
  )
  load_all-Loaded a (d ∷ ds) t =
      let b = int_eq d.side (pos 1) in
      let t0 : Trader N = record t { orders = assign a (loaded_order d) t.orders } in
      let (done, after) = load_all-Loaded (suc a) ds (enter_if b a t0) in
      (
        done,
        record {
          buys = after.buys ∙ enter_if-buyside b a t0 (rows_of true (suc a) ds);
          sells = after.sells ∙ enter_if-sellside b a t0 (rows_of false (suc a) ds);
          raw_buys = after.raw_buys ∙ enter_if-raw_buyside b a t0;
          raw_sells = after.raw_sells ∙ enter_if-raw_sellside b a t0;
        },
      )
