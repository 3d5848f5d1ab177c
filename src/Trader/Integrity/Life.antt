-- ===== src/Trader/Integrity/Life.antt =====
-- The orders that are held, from the constructor on.
use inertia_trader.Common.{
  ℕ, suc, ◌≡◌, refl, sym, ◌∙◌, subst, Bool, true, false, List, [], ◌∷◌, arith, length, ltb,
}
use inertia_trader.Common.Int.{pos, int_eq}
use inertia_trader.Common.Map.{nat_key}
use inertia_trader.Common.Action.{Action, fault}
use inertia_trader.Common.Action.Post.{Keeps, Keeps->>=, Keeps-if, Keeps-when}
use inertia_trader.Platform.{Platform}
use inertia_trader.Types.{OrderData}
use inertia_trader.Database.{get_trading_data, get_product_list, get_exist_order}
use inertia_trader.Server.{on_history}
use inertia_trader.Trader.{Trader, set_trader_status}
use inertia_trader.Trader.Startup.{
  load_all, loaded_order, enter, enter_if, essential_data, load_exist_order, new_trader,
  literal_length,
}
use inertia_trader.Trader.Holdings.{Holdings, holdings, Keeps-on_server, Keeps-put_order}
use inertia_trader.Trader.Holdings.Quiet.{Keeps-pure, Keeps-gets, Keeps-modify}
use inertia_trader.Trader.Holdings.Lifecycle.{Runs, IsSingle, Runs-IsSingle}
use inertia_trader.Trader.Integrity.{Sound, IsSound}
use inertia_trader.Trader.Integrity.Rounds.{Runs-IsSound}

abbrev pub empty_holdings : Holdings
empty_holdings = record { buys = []; sells = []; reports = [] }

module _ {N : Type 0} (P : Platform N) where
  abbrev unended : Action (Trader N) (Unit {0})
  unended t = (fault, t)

  Keeps-unended : Keeps (holdings {N = N}) unended
  unfolding Keeps
  Keeps-unended t = refl

  enter_if-holdings : (b : Bool) (a : ℕ) (t : Trader N) → holdings (enter_if b a t) ≡ holdings t
  enter_if-holdings true a t = refl
  enter_if-holdings false a t = refl

  Keeps-load_all : (a : ℕ) (ds : List (OrderData N)) → Keeps holdings (load_all a ds)
  unfolding load_all
  Keeps-load_all a [] = Keeps-pure P tt
  Keeps-load_all a (d ∷ ds) = Keeps->>= holdings _ _ (Keeps-put_order a (loaded_order d)) λ _.
      Keeps->>= holdings _ _
        (Keeps-modify P (enter d.side a) (enter_if-holdings (int_eq d.side (pos 1)) a))
        λ _. Keeps-load_all (suc a) ds

  Keeps-essential_data : Keeps holdings (essential_data P)
  unfolding essential_data
  Keeps-essential_data = Keeps->>= holdings _ _ (Keeps-gets P (λ t. t)) λ t.
      Keeps-when holdings t.db_status _ (
        Keeps->>= holdings _ _ (Keeps-on_server (on_history (get_trading_data P true))) λ basic.
          Keeps->>= holdings _ _
            (Keeps-modify P (λ t. record t { trade_basic_data = basic }) (λ t. refl))
            λ _.
              Keeps->>= holdings _ _ (Keeps-on_server (on_history (get_product_list P true)))
                λ products. Keeps-modify P (λ t. record t { product_list = products }) (λ t. refl))

  Keeps-new_trader : (a : ℕ) → Keeps holdings (new_trader P a)
  unfolding new_trader load_exist_order set_trader_status
  Keeps-new_trader a = Keeps->>= holdings _ _ Keeps-essential_data λ _.
      Keeps->>= holdings _ _
        (Keeps->>= holdings _ _ (Keeps-on_server (on_history (get_exist_order P true))) λ exist.
          Keeps-if holdings (ltb literal_length (length exist)) unended (load_all a exist)
            Keeps-unended (Keeps-load_all a exist))
        λ _. Keeps-modify P (set_trader_status true) (λ t. refl)

  -- The constructor moves no order into a raw book or into the list of the reports.
  pub new_trader-holdings : (a : ℕ) (t : Trader N) → holdings (new_trader P a t).1 ≡ holdings t
  unfolding Keeps
  new_trader-holdings a t = Keeps-new_trader a t

  -- From the constructor, on members that hold no order, and over any sequence of whole rounds of the
  -- threads, however each ends, where the heap gives no address of an order that is held: the raw books
  -- are sorted by address; each of their orders lies on the heap with its price, its connection, its
  -- serial number and the side of its book, and each order of the list of the reports with all of these
  -- and the price of its execution; and no order is held twice.
  pub Runs-new_trader :
      (a : ℕ) (made t : Trader N)
      → holdings made ≡ empty_holdings
      → Runs P (new_trader P a made).1 t
      → IsSound t × IsSingle (holdings t)
  Runs-new_trader a made t e run =
      let from = (new_trader P a made).1 in
      let none_held : empty_holdings ≡ holdings from = sym (new_trader-holdings a made ∙ e) in
      let empty : Sound from.orders empty_holdings = record {
        buys = tt;
        sells = tt;
        reports = tt;
        buys_sorted = tt;
        sells_sorted = tt;
      } in
      (
        Runs-IsSound P from t run (subst (Sound from.orders) none_held empty),
        Runs-IsSingle P from t run (subst IsSingle none_held (λ c. omega arith)),
      )
