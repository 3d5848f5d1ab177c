-- ===== src/Trader/Holdings/Quiet.antt =====
-- The parts of the rounds that move no order.
use inertia_trader.Common.{ℕ, ◌≡◌, refl, List, ◌++◌, Text, codes, get_elem?}
use inertia_trader.Common.Map.{lookup, nat_key}
use inertia_trader.Common.Decimal.{stoi, int_to_string}
use inertia_trader.Common.Action.{pure, gets, modify}
use inertia_trader.Common.Action.Post.{Keeps, Keeps->>=, Keeps-or_fault, Keeps-or_throw}
use inertia_trader.Platform.{Platform}
use inertia_trader.Trader.{Trader, order_at}
use inertia_trader.Trader.Changes.{reply}
use inertia_trader.Trader.Matching.{crosses}
use inertia_trader.Trader.Reports.{send_exec_report, side_digit}
use inertia_trader.Server.{send_to_client, on_history}
use inertia_trader.Database.{insert_report, update_order_situation}
use inertia_trader.Trader.Orders.{read_request}
use inertia_trader.Trader.Holdings.{holdings, Keeps-on_server}

module _ {N : Type 0} (P : Platform N) where
  pub Keeps-pure : {A : Type 0} (a : A) → Keeps {S = Trader N} holdings (pure a)
  unfolding Keeps
  Keeps-pure a t = refl

  pub Keeps-gets : {A : Type 0} (f : Trader N → A) → Keeps holdings (gets f)
  unfolding Keeps
  Keeps-gets f t = refl

  pub Keeps-modify :
      (g : Trader N → Trader N)
      → ((t : Trader N) → holdings (g t) ≡ holdings t)
      → Keeps holdings (modify g)
  unfolding Keeps
  Keeps-modify g keeps t = keeps t

  pub Keeps-order_at : (a : ℕ) → Keeps (holdings {N = N}) (order_at a)
  unfolding Keeps
  Keeps-order_at a t = Keeps-or_fault holdings (lookup a t.orders) t

  pub Keeps-reply : (res : List Text) (text : Text) → Keeps holdings (reply P res text)
  unfolding reply
  Keeps-reply res text =
      Keeps->>= holdings _ _ (Keeps-or_fault holdings (get_elem? res 7)) λ conn_text.
        Keeps->>= holdings _ _ (Keeps-or_throw holdings (stoi conn_text)) λ conn.
          Keeps->>= holdings _ _ (Keeps-or_fault holdings (get_elem? res 1))
            λ nid. Keeps-on_server (send_to_client P conn (nid ++ text))

  pub Keeps-send_exec_report : (a : ℕ) → Keeps holdings (send_exec_report P a)
  unfolding send_exec_report
  Keeps-send_exec_report a = Keeps->>= holdings _ _ (Keeps-order_at a) λ o.
      Keeps->>= holdings _ _ (Keeps-or_fault holdings o.conn_id) λ conn.
        Keeps->>= holdings _ _
          (Keeps-on_server (send_to_client P conn (o.nid ++ codes "|OrderExec")))
          λ _. Keeps->>= holdings _ _ (Keeps-or_fault holdings o.order_price) λ price.
            Keeps->>= holdings _ _ (Keeps-or_fault holdings o.exec_price) λ exec.
              Keeps->>= holdings _ _ (Keeps-or_fault holdings o.side) λ side.
                Keeps->>= holdings _ _ (Keeps-or_fault holdings o.client_serial_num) λ serial.
                  Keeps->>= holdings _ _
                    (Keeps-on_server (
                      on_history (
                        insert_report P o.nid (P.to_string price) (P.to_string exec)
                          (side_digit side) (int_to_string serial))))
                    λ _.
                      Keeps->>= holdings _ _
                        (Keeps-on_server (on_history (update_order_situation P o.nid (codes "2"))))
                        λ _. Keeps-pure tt

  pub Keeps-crosses : (s : ℕ) → Keeps holdings (crosses P s)
  unfolding crosses
  Keeps-crosses s = Keeps->>= holdings _ _ (Keeps-gets (λ t. t)) λ t.
      Keeps->>= holdings _ _ (Keeps-or_fault holdings t.od) λ a.
        Keeps->>= holdings _ _ (Keeps-order_at a) λ last.
          Keeps->>= holdings _ _ (Keeps-or_fault holdings last.order_price) λ bid.
            Keeps->>= holdings _ _ (Keeps-order_at s) λ ods.
              Keeps->>= holdings _ _ (Keeps-or_fault holdings ods.order_price) λ ask. Keeps-pure _

  pub Keeps-read_request : (res : List Text) → Keeps holdings (read_request P res)
  unfolding read_request
  Keeps-read_request res = Keeps->>= holdings _ _ (Keeps-or_fault holdings (get_elem? res 1)) λ nid.
      Keeps->>= holdings _ _ (Keeps-or_fault holdings (get_elem? res 2)) λ price_text.
        Keeps->>= holdings _ _ (Keeps-or_throw holdings (P.stod price_text)) λ price.
          Keeps->>= holdings _ _ (Keeps-or_fault holdings (get_elem? res 3)) λ side_text.
            Keeps->>= holdings _ _ (Keeps-or_throw holdings (stoi side_text)) λ side.
              Keeps->>= holdings _ _ (Keeps-or_fault holdings (get_elem? res 6)) λ symbol.
                Keeps->>= holdings _ _ (Keeps-or_fault holdings (get_elem? res 7)) λ conn_text.
                  Keeps->>= holdings _ _ (Keeps-or_throw holdings (stoi conn_text))
                    λ conn. Keeps-pure _
