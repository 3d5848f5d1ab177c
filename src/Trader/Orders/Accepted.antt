-- ===== src/Trader/Orders/Accepted.antt =====
-- An order message that passes every check, from its text to the books.
use inertia_trader.Common.{ℕ, ◌≡◌, refl, ap, ◌∙◌, true, some, Text, codes, if◌then◌else◌}
use inertia_trader.Common.Int.{ℤ}
use inertia_trader.Common.Action.{ok}
use inertia_trader.Platform.{Platform}
use inertia_trader.Types.{OrderStatus}
use inertia_trader.Funclib.Split.{split, bar}
use inertia_trader.Trader.{Trader}
use inertia_trader.Trader.Nid.{NidSource, generate_nid}
use inertia_trader.Trader.Risk.{verify}
use inertia_trader.Trader.Orders.{
  Request, read_request, answer, order_of, side_of_text, place_order, handle_order,
}
use inertia_trader.Trader.Orders.Outcomes.{
  Account, judged, handle_order-judged, settle_order-balance,
}
use inertia_trader.Trader.Orders.Placement.{books, entered, place_order-books}

module _ {N : Type 0} (P : Platform N) where
  -- A message whose fields can be read, whose order the risk check verifies, whose account is known and
  -- covers it, and that gets a serial number, puts its order into the raw book of its side, and into no
  -- other book: the books that a cancellation searches stay as they were. This holds whatever the
  -- database and the connection answer, also when the client is told that the order failed.
  pub handle_order-books :
      (at : ℕ) (msg : Text) (r : Request N) (t : Trader N) (serial : ℤ) (n : NidSource)
      (a : Account r.conn t.sr)
      → ((t' : Trader N) → read_request P (split msg bar) t' ≡ (ok r, t'))
      → verify P.floats t.product_list t.trade_basic_data r.price r.symbol ≡ ok OrderStatus.verified
      → P.lt (P.mul r.price P.lot) a.user.balance ≡ true
      → generate_nid t.nids ≡ (ok serial, n)
      → books (handle_order P at msg t).1 ≡ entered (side_of_text r.side_text) at (books t)
  unfolding books
  handle_order-books at msg r t serial n a reads verdict covered number =
      let t' = judged P at r OrderStatus.verified t in
      let o = record (order_of r) { status = some OrderStatus.verified } in
      let placed : handle_order P at msg t ≡ place_order P at o r t' =
        handle_order-judged P at msg r OrderStatus.verified t reads verdict
        ∙ settle_order-balance P at o r t' a
        ∙ ap
            (λ b.
              (if b
                  then place_order P at o r
                  else answer P r (codes "|failed, Insufficient balance"))
                t')
            covered in
      ap (λ q. books q.1) placed
      ∙ place_order-books P at o r (side_of_text r.side_text) serial n t' refl number
