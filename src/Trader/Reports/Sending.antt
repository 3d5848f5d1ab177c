-- ===== src/Trader/Reports/Sending.antt =====
-- What a round of `generateExecReport` sends, and what two rounds send behind a trade.
use inertia_trader.Common.{
  ℕ, ◌≡◌, refl, ap, ◌∙◌, some, List, [], ◌∷◌, ◌++◌, Text, codes, get_elem?, append_assoc,
}
use inertia_trader.Common.Int.{ℤ}
use inertia_trader.Common.Decimal.{int_to_string}
use inertia_trader.Common.Map.{lookup, nat_key, int_key}
use inertia_trader.Common.Action.{ok, gets}
use inertia_trader.Common.Action.Laws.{>>=-ok, or_fault->>=}
use inertia_trader.Platform.{Platform}
use inertia_trader.Types.{Side}
use inertia_trader.Database.{
  insert_report, update_order_situation, mysql_query, insert_report_query, update_situation_query,
}
use inertia_trader.Connection.{Connection}
use inertia_trader.Server.{send_to_client}
use inertia_trader.Server.Frames.{send_to_client-found, sent_on}
use inertia_trader.Trader.{Order, Trader, on_server}
use inertia_trader.Trader.Books.{split_end}
use inertia_trader.Trader.Matching.Trades.{split_end-append}
use inertia_trader.Trader.Reports.{send_exec_report, generate_exec_report, side_digit}

module _ {N : Type 0} where
  -- An order on the heap with all that a report says of it, and a connection that is stored and alive.
  pub record Reportable (a : ℕ) (t : Trader N) : Type 0 where
    pub order : Order N
    pub conn : ℤ
    pub price : N
    pub exec : N
    pub side : Side
    pub serial : ℤ
    pub address : ℕ
    pub connection : Connection
    pub on_heap : lookup a t.orders ≡ some order
    pub has_conn : order.conn_id ≡ some conn
    pub has_price : order.order_price ≡ some price
    pub has_exec : order.exec_price ≡ some exec
    pub has_side : order.side ≡ some side
    pub has_serial : order.client_serial_num ≡ some serial
    pub stored : lookup conn t.sr.conn_storage ≡ some (some address)
    pub alive : get_elem? t.sr.conns address ≡ some connection

module _ {N : Type 0} (P : Platform N) where
  -- The commands that a report gives the database.
  abbrev pub report_commands : {a : ℕ} {t : Trader N} → Reportable a t → List Text
  report_commands r =
      insert_report_query r.order.nid (P.to_string r.price) (P.to_string r.exec) (side_digit r.side)
        (int_to_string r.serial)
      ∷ update_situation_query r.order.nid (codes "2")
      ∷ []

  -- The trader behind a report, but for the list.
  abbrev pub reported : {a : ℕ} (t : Trader N) → Reportable a t → Trader N
  reported t r =
      let s =
        sent_on P r.address (r.order.nid ++ codes "|OrderExec" ++ codes "\n") r.connection t.sr in
      record t { sr = record s { history = t.sr.history ++ report_commands r } }

  send_exec_report-Reportable :
      (a : ℕ) (t : Trader N) (r : Reportable a t) → send_exec_report P a t ≡ (ok tt, reported t r)
  unfolding send_exec_report insert_report update_order_situation mysql_query
  send_exec_report-Reportable a t r =
      let s =
        sent_on P r.address (r.order.nid ++ codes "|OrderExec" ++ codes "\n") r.connection t.sr in
      let t1 : Trader N = record t { sr = s } in
      rw
        (
          send_exec_report,
          or_fault->>= _ t r.on_heap,
          or_fault->>= _ t r.has_conn,
          >>=-ok (on_server (send_to_client P r.conn (r.order.nid ++ codes "|OrderExec"))) _ t t1 tt
              (ap (λ q. (q.0, record t { sr = q.1 }))
                (send_to_client-found P r.conn r.address r.connection
                  (r.order.nid ++ codes "|OrderExec") t.sr r.stored r.alive)),
          or_fault->>= _ t1 r.has_price,
          or_fault->>= _ t1 r.has_exec,
          or_fault->>= _ t1 r.has_side,
          or_fault->>= _ t1 r.has_serial,
        )
        λ i. (
          ok tt,
          record t {
            sr = record s {
              history =
                  append_assoc t.sr.history
                    (insert_report_query r.order.nid (P.to_string r.price) (P.to_string r.exec)
                        (side_digit r.side) (int_to_string r.serial)
                      ∷ [])
                    (update_situation_query r.order.nid (codes "2") ∷ []) i;
            };
          },
        )

  -- Where the list of the reports ends with an order that has all its values, and whose connection is
  -- known, a round sends its client the NID with the word of the execution, once, gives the database the
  -- report and then the new situation, and takes the order from the end of the list: the newest trade is
  -- reported first. It does so whatever the database and the connection answer.
  pub generate_exec_report-Reportable :
      (a : ℕ) (front : List ℕ) (t : Trader N) (r : Reportable a t)
      → t.report_list ≡ front ++ a ∷ []
      → generate_exec_report P t ≡ (ok tt, record (reported t r) { report_list = front })
  unfolding generate_exec_report
  generate_exec_report-Reportable a front t r place = rw (
    generate_exec_report,
    >>=-ok (gets (λ t. t)) _ t t t refl,
    ap split_end place ∙ split_end-append front a,
    >>=-ok (send_exec_report P a) _ t (reported t r) tt (send_exec_report-Reportable a t r),
  )
