-- ===== src/Trader/Reports/Draining.antt =====
-- Rounds of `generateExecReport`, one for each order of the list of the reports.
use mathlib.Core.Option.{some-injective}
use mathlib.Core.List.{reverse-cons}
use inertia_trader.Common.{
  ℕ, zero, suc, ◌≡◌, refl, sym, ap, ◌∙◌, subst, Bool, true, false, some, List, [], ◌∷◌, ◌++◌, Text,
  codes, All, length, if◌then◌else◌, reverse, get_elem?, set, get_elem?-set-some, get_elem?-set_ne,
  append-nil, append_assoc, Bool-cases, inl, inr, ◌==◌, ==_iff,
}
use inertia_trader.Common.Map.{nat_key, int_key}
use inertia_trader.Common.Action.{Action, ok, ◌>>=◌, ◌>>◌, pure, gets}
use inertia_trader.Common.Action.Laws.{>>=-ok}
use inertia_trader.Platform.{Platform}
use inertia_trader.Connection.{Connection, sendto, set_recv_status}
use inertia_trader.Trader.{Trader}
use inertia_trader.Trader.Reports.{generate_exec_report}
use inertia_trader.Trader.Reports.Sending.{
  Reportable, reported, report_commands, generate_exec_report-Reportable,
}

sendto-socket : (b : Bool) (c : Connection) → (sendto b c).connection_socket ≡ c.connection_socket
unfolding sendto set_recv_status
sendto-socket true c = refl
sendto-socket false c = refl

-- A connection that another one is written over, or that is written itself with its socket, keeps it.
alive_later :
    (cs : List Connection) (i j : ℕ) (c d x : Connection)
    → get_elem? cs i ≡ some c
    → get_elem? cs j ≡ some d
    → x.connection_socket ≡ c.connection_socket
    → (d' : Connection) × (get_elem? (set cs i x) j ≡ some d')
      × (d'.connection_socket ≡ d.connection_socket)
alive_later cs i j c d x hi hj e = elim (Bool-cases (i == j)) [
  | inl same ↦
      let place : i ≡ j = (==_iff i j).0 same in
      (
        x,
        subst (λ k. get_elem? (set cs i x) k ≡ some x) place (get_elem?-set-some cs i x c hi),
        e
            ∙ ap (λ y. y.connection_socket)
                (some-injective c d (sym hi ∙ ap (get_elem? cs) place ∙ hj)),
      )
  | inr other ↦ (d, get_elem?-set_ne cs x (λ p. cc (sym other ∙ (==_iff i j).1 p)) ∙ hj, refl)
]

module _ {N : Type 0} (P : Platform N) where
  -- The next of two orders can still be reported when the first one was.
  later_report :
      {a b : ℕ} {t : Trader N} (front : List ℕ) (r : Reportable a t) (q : Reportable b t)
      → (q' : Reportable b (record (reported P t r) { report_list = front }))
        × (q'.connection.connection_socket ≡ q.connection.connection_socket)
        × (q'.order ≡ q.order)
        × (report_commands P q' ≡ report_commands P q)
  later_report {t = t} front r q =
      let text = r.order.nid ++ codes "|OrderExec" ++ codes "\n" in
      let (d, e, s) =
        alive_later t.sr.conns r.address q.address r.connection q.connection
          (sendto (P.delivers t.sr.wire r.connection.connection_socket text) r.connection) r.alive
          q.alive
          (sendto-socket (P.delivers t.sr.wire r.connection.connection_socket text) r.connection) in
      (
        record {
          order = q.order;
          conn = q.conn;
          price = q.price;
          exec = q.exec;
          side = q.side;
          serial = q.serial;
          address = q.address;
          connection = d;
          on_heap = q.on_heap;
          has_conn = q.has_conn;
          has_price = q.has_price;
          has_exec = q.has_exec;
          has_side = q.has_side;
          has_serial = q.has_serial;
          stored = q.stored;
          alive = e;
        },
        s,
        refl,
        refl,
      )

  -- The loop of `generateExecReport`, for a number of rounds.
  unfoldable pub report_rounds : ℕ → Action (Trader N) (Unit {0})
  report_rounds zero = pure tt
  report_rounds (suc n) = do
    status ← gets (λ t. t.trader_status)
    if status then (do generate_exec_report P; report_rounds n) else pure tt

  report_rounds-suc :
      (n : ℕ) (t t1 : Trader N)
      → t.trader_status ≡ true
      → generate_exec_report P t ≡ (ok tt, t1)
      → report_rounds (suc n) t ≡ report_rounds n t1
  unfolding report_rounds
  report_rounds-suc n t t1 running e =
      ap (λ b. (if b then (generate_exec_report P >> report_rounds n) else pure tt) t) running
      ∙ >>=-ok (generate_exec_report P) (λ _. report_rounds n) t t1 tt e

  -- What the clients get, and what the database gets, of a list of reports.
  abbrev pub told : (t : Trader N) (xs : List ℕ) → All (λ a. Reportable a t) xs → List (ℕ × Text)
  told t [] all = []
  told t (a ∷ xs) (r, all) =
      (r.connection.connection_socket, r.order.nid ++ codes "|OrderExec" ++ codes "\n")
      ∷ told t xs all

  abbrev pub stored_all : (t : Trader N) (xs : List ℕ) → All (λ a. Reportable a t) xs → List Text
  stored_all t [] all = []
  stored_all t (a ∷ xs) (r, all) = report_commands P r ++ stored_all t xs all

  later_reports :
      {a : ℕ} {t : Trader N} (front : List ℕ) (r : Reportable a t) (xs : List ℕ)
      (all : All (λ b. Reportable b t) xs)
      → (all' : All (λ b. Reportable b (record (reported P t r) { report_list = front })) xs)
        × (told (record (reported P t r) { report_list = front }) xs all' ≡ told t xs all)
        × (stored_all (record (reported P t r) { report_list = front }) xs all'
            ≡ stored_all t xs all)
  later_reports front r [] all = (tt, refl, refl)
  later_reports {t = t} front r (b ∷ xs) (q, all) =
      let (q', s, o, c) = later_report front r q in
      let (all', tells, stores) = later_reports front r xs all in
      (
        (q', all'),
        λ i. (s i, (o i).nid ++ codes "|OrderExec" ++ codes "\n") ∷ tells i,
        λ i. c i ++ stores i,
      )

  -- While the trader runs, and where all orders of the list can be reported, as many rounds as it has
  -- orders end well and leave it empty; each client is told of its order once, the last one of the list
  -- first, and the database gets each report and situation in that order.
  pub report_rounds-drain :
      (xs : List ℕ) (t : Trader N) (all : All (λ a. Reportable a t) xs)
      → t.trader_status ≡ true
      → t.report_list ≡ reverse xs
      → (t' : Trader N) × (report_rounds (length xs) t ≡ (ok tt, t'))
        × (t'.report_list ≡ [])
        × (t'.sr.wire ≡ t.sr.wire ++ told t xs all)
        × (t'.sr.history ≡ t.sr.history ++ stored_all t xs all)
  unfolding report_rounds
  report_rounds-drain [] t all running e =
      (t, refl, e, sym (append-nil t.sr.wire), sym (append-nil t.sr.history))
  report_rounds-drain (a ∷ xs) t (r, all) running e =
      let t1 : Trader N = record (reported P t r) { report_list = reverse xs } in
      let (all', tells, stores) = later_reports (reverse xs) r xs all in
      let (t', run, empty, wire, history) = report_rounds-drain xs t1 all' running refl in
      (
        t',
        report_rounds-suc (length xs) t t1 running
              (generate_exec_report-Reportable P a (reverse xs) t r (e ∙ reverse-cons a xs))
            ∙ run,
        empty,
        wire
            ∙ append_assoc t.sr.wire
                ((r.connection.connection_socket, r.order.nid ++ codes "|OrderExec" ++ codes "\n")
                  ∷ [])
                (told t1 xs all')
            ∙ ap
                (λ ys.
                  t.sr.wire
                  ++ (
                    r.connection.connection_socket,
                    r.order.nid ++ codes "|OrderExec" ++ codes "\n",
                  )
                    ∷ ys)
                tells,
        history
            ∙ append_assoc t.sr.history (report_commands P r) (stored_all t1 xs all')
            ∙ ap (λ ys. t.sr.history ++ (report_commands P r ++ ys)) stores,
      )
