-- ===== src/Trader/Integrity/Drained.antt =====
-- The rounds of `generateExecReport` that follow any rounds of the four threads.
use mathlib.Core.List.{reverse-reverse, reverse-cons}
use inertia_trader.Common.{
  ℕ, true, ◌≡◌, sym, some, List, [], ◌∷◌, ◌++◌, All, All-append, length, reverse, get_elem?, subst,
}
use inertia_trader.Common.Action.{ok}
use inertia_trader.Common.Int.{ℤ}
use inertia_trader.Common.Map.{lookup, nat_key, int_key}
use inertia_trader.Platform.{Platform}
use inertia_trader.Connection.{Connection}
use inertia_trader.Trader.{Order, Trader}
use inertia_trader.Trader.Reports.Sending.{Reportable}
use inertia_trader.Trader.Reports.Draining.{report_rounds, told, stored_all, report_rounds-drain}
use inertia_trader.Trader.Holdings.Lifecycle.{Runs}
use inertia_trader.Trader.Integrity.{Executed, IsSound}
use inertia_trader.Trader.Integrity.Rounds.{Runs-IsSound}

module _ {N : Type 0} where
  -- The connection with this id is stored, and its pointer leads to a connection.
  abbrev pub IsKnown : Trader N → ℤ → Type 0
  IsKnown t conn =
      (a : ℕ) × (c : Connection) × (lookup conn t.sr.conn_storage ≡ some (some a))
      × (get_elem? t.sr.conns a ≡ some c)

  -- The connection that an order names is known.
  abbrev pub HasConnection : Trader N → ℕ → Type 0
  HasConnection t a =
      (o : Order N) (conn : ℤ) → lookup a t.orders ≡ some o → o.conn_id ≡ some conn → IsKnown t conn

  Executed-Reportable :
      (t : Trader N) (xs : List ℕ)
      → All (Executed t.orders) xs
      → All (HasConnection t) xs
      → All (λ a. Reportable a t) xs
  Executed-Reportable t [] _ _ = tt
  Executed-Reportable t (a ∷ xs) ((o, side, exec, e, k, ex), all) (known, others) =
      let (address, connection, stored, alive) = known o k.conn e k.has_conn in
      (
        record {
          order = o;
          conn = k.conn;
          price = k.price;
          exec = exec;
          side = side;
          serial = k.serial;
          address = address;
          connection = connection;
          on_heap = e;
          has_conn = k.has_conn;
          has_price = k.has_price;
          has_exec = ex;
          has_side = k.has_side;
          has_serial = k.has_serial;
          stored = stored;
          alive = alive;
        },
        Executed-Reportable t xs all others,
      )

All-reverse {ℓ} : (P : ℕ → Type ℓ) (xs : List ℕ) → All P xs → All P (reverse xs)
All-reverse P [] _ = tt
All-reverse P (x ∷ xs) (p, all) =
    subst (All P) (sym (reverse-cons x xs))
      (All-append P (reverse xs) (x ∷ []) (All-reverse P xs all) (p, tt))

module _ {N : Type 0} (P : Platform N) where
  -- Behind any sequence of whole rounds of the threads, where the heap gives no address of an order
  -- that is held, where the trader runs, and where the connections of all orders in the list of the
  -- reports are known, as many rounds of the reports as there are orders end well and leave the list
  -- empty: no value of an order is missing. Each client is told of its order once, the last one of
  -- the list first, and the database gets each report and situation.
  pub Runs-drain :
      (from t : Trader N)
      → Runs P from t
      → IsSound from
      → t.trader_status ≡ true
      → All (HasConnection t) t.report_list
      → (all : All (λ a. Reportable a t) (reverse t.report_list)) × (t' : Trader N) × (report_rounds
            P
            (length (reverse t.report_list))
            t
          ≡ (ok tt, t'))
        × (t'.report_list ≡ [])
        × (t'.sr.wire ≡ t.sr.wire ++ told P t (reverse t.report_list) all)
        × (t'.sr.history ≡ t.sr.history ++ stored_all P t (reverse t.report_list) all)
  Runs-drain from t run q running known =
      let reports = (Runs-IsSound P from t run q).reports in
      let all =
        Executed-Reportable t (reverse t.report_list)
          (All-reverse (Executed t.orders) t.report_list reports)
          (All-reverse (HasConnection t) t.report_list known) in
      let (t', ends, empty, wire, history) =
        report_rounds-drain P (reverse t.report_list) t all running
          (sym (reverse-reverse t.report_list)) in
      (all, t', ends, empty, wire, history)
