-- ===== src/Trader/Orders/Sender.antt =====
-- Whose connection an order is booked on.
use inertia_trader.Common.{
  ℕ, ◌≤◌, ◌≡◌, ap, ◌∙◌, some, List, [], ◌∷◌, ◌++◌, Text, length, get_elem?-append, arith,
}
use inertia_trader.Common.Int.{ℤ}
use inertia_trader.Common.Decimal.{int_to_string}
use inertia_trader.Common.Action.Laws.{>>=-same}
use inertia_trader.Common.Map.{assign, nat_key}
use inertia_trader.Platform.{Platform}
use inertia_trader.Funclib.Split.{split, bar}
use inertia_trader.Funclib.Split.Laws.{NoNul}
use inertia_trader.Server.Messages.{tagged}
use inertia_trader.Server.Messages.Tagging.{split-tagged}
use inertia_trader.Trader.{Trader, blank_order}
use inertia_trader.Trader.Orders.{read_request, book_request, handle_order}

module _ {N : Type 0} (P : Platform N) where
  -- Only the first eight fields of a message are read.
  read_request-append :
      (fields more : List Text) (t : Trader N)
      → 8 ≤ length fields
      → read_request P (fields ++ more) t ≡ read_request P fields t
  unfolding read_request
  read_request-append fields more t h = rw (
    read_request,
    get_elem?-append fields more 1 (omega arith),
    get_elem?-append fields more 2 (omega arith),
    get_elem?-append fields more 3 (omega arith),
    get_elem?-append fields more 6 (omega arith),
    get_elem?-append fields more 7 (omega arith),
  )

  abbrev renewed : ℕ → Trader N → Trader N
  renewed at t = record t { orders = assign at blank_order t.orders; od = some at }

  -- A client that sends a message without a NUL, of eight fields or more, chooses the connection of its
  -- order: the order is handled as if the server had put no id behind the message.
  pub handle_order-sender :
      (at : ℕ) (m : Text) (id : ℤ) (t : Trader N)
      → NoNul m
      → 8 ≤ length (split m bar)
      → handle_order P at (tagged m id) t ≡ handle_order P at m t
  unfolding handle_order
  handle_order-sender at m id t clean many =
      >>=-same (read_request P (split (tagged m id) bar)) (read_request P (split m bar))
        (book_request P at) (renewed at t)
        (ap (λ fs. read_request P fs (renewed at t)) (split-tagged m id clean)
          ∙ read_request-append (split m bar) (int_to_string id ∷ []) (renewed at t) many)
