-- ===== src/Trader/Reports.antt =====
-- `Trader::sendExecReport` and `generateExecReport`.
pub mod Sending
pub mod Draining
use inertia_trader.Common.{ℕ, none, some, ◌++◌, Text, codes}
use inertia_trader.Common.Decimal.{int_to_string}
use inertia_trader.Common.Map.{nat_key}
use inertia_trader.Common.Action.{Action, ◌>>=◌, ◌>>◌, pure, or_fault, gets, modify}
use inertia_trader.Platform.{Platform}
use inertia_trader.Types.{Side}
use inertia_trader.Database.{insert_report, update_order_situation}
use inertia_trader.Server.{on_history, send_to_client}
use inertia_trader.Trader.{Trader, on_server, order_at}
use inertia_trader.Trader.Books.{split_end}

abbrev pub side_digit : Side → Text
side_digit Side.buy = codes "1"
side_digit Side.sell = codes "2"
side_digit Side.none = codes "2"

module _ {N : Type 0} (P : Platform N) where
  unfoldable pub send_exec_report : ℕ → Action (Trader N) (Unit {0})
  send_exec_report a = do
    o ← order_at a
    conn ← or_fault o.conn_id
    on_server (send_to_client P conn (o.nid ++ codes "|OrderExec"))
    price ← or_fault o.order_price
    exec ← or_fault o.exec_price
    side ← or_fault o.side
    serial ← or_fault o.client_serial_num
    on_server (
        on_history (
          insert_report P o.nid (P.to_string price) (P.to_string exec) (side_digit side)
            (int_to_string serial)))
    on_server (on_history (update_order_situation P o.nid (codes "2")))
    pure tt

  -- One round of the loop: the report at the back of the list.
  unfoldable pub generate_exec_report : Action (Trader N) (Unit {0})
  generate_exec_report = do
    t ← gets (λ t. t)
    elim (split_end t.report_list) [
      | none ↦ pure tt
      | some (front, a) ↦ do send_exec_report a; modify (λ t. record t { report_list = front })
    ]
