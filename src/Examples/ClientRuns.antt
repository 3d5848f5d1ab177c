-- ===== src/Examples/ClientRuns.antt =====
-- Messages of a client at concrete inputs.
use inertia_trader.Common.{
  ℕ, ◌+◌, ◌*◌, ◌^◌, ◌≡◌, ◌≢◌, inl, inr, refl, Bool, true, false, not, ◌&&◌, List, [], ◌∷◌, ◌++◌,
  Text, codes, All, arith, ◌==◌,
}
use inertia_trader.Common.Int.{pos}
use inertia_trader.Common.Map.{nat_key}
use inertia_trader.Common.Decimal.{stoi}
use inertia_trader.Common.Action.{ok}
use inertia_trader.Funclib.Split.{split, contains, amp}
use inertia_trader.Funclib.Split.Fields.{IsField, join}
use inertia_trader.Funclib.DataQueue.{new_queue}
use inertia_trader.Types.{OrderStatus, UserData}
use inertia_trader.Database.{insert_order_query}
use inertia_trader.Connection.{Connection}
use inertia_trader.Server.{Server}
use inertia_trader.Server.Messages.{Receiver, receive_loop}
use inertia_trader.Server.Messages.Intake.{some_all, with_orders, orders_in, receive_loop-orders}
use inertia_trader.Server.Framing.Stream.{stream}
use inertia_trader.Trader.{Trader}
use inertia_trader.Trader.Nid.Unique.{generate_nid-eq}
use inertia_trader.Trader.Risk.{verify, verify_text, refuses, listed}
use inertia_trader.Trader.Orders.{read_request, get_order, handle_order, data_of}
use inertia_trader.Trader.Orders.Replies.{Answered, handle_order-Answered}
use inertia_trader.Trader.Orders.Outcomes.{Account}
use inertia_trader.Trader.Orders.Client.{
  OrderText, Readable, Ready, received, request_of, get_order-client,
}
use inertia_trader.Examples.{platform, connection, user, server, trader}

-- The bytes of a text, each no NUL and not the delimiter.
abbrev is_clean : ℕ → Text → Bool
is_clean d [] = true
is_clean d (c ∷ s) = let rest = is_clean d s in not (c == d) && (not (c == 0) && rest)

is_clean-All :
    (d : ℕ) (s : Text) → is_clean d s ≡ true → All (λ c. (contains c (d ∷ []) ≡ false) × (c ≢ 0)) s
unfolding contains
is_clean-All d [] e = tt
is_clean-All d (c ∷ s) e = ((ground arith, ground arith), is_clean-All d s (ground arith))

abbrev is_nonzero : Text → Bool
is_nonzero [] = true
is_nonzero (c ∷ s) = let rest = is_nonzero s in not (c == 0) && rest

is_nonzero-All : (s : Text) → is_nonzero s ≡ true → All (λ c. c ≢ 0) s
is_nonzero-All [] e = tt
is_nonzero-All (c ∷ s) e = (ground arith, is_nonzero-All s (ground arith))

is_clean-IsField : (d c : ℕ) (s : Text) → is_clean d (c ∷ s) ≡ true → IsField (d ∷ []) (c ∷ s)
is_clean-IsField d c s e = ((λ h. cc), is_clean-All d (c ∷ s) e)

-- The client 3 is logged in, on a server with nothing in its queue of the orders.
abbrev client : Connection
client = record connection { login_flag = true }

abbrev rich_user : UserData ℕ
rich_user = record user { balance = 1000000 }

abbrev client_server : Server ℕ
client_server = record server {
  dq = new_queue 100;
  conns = client ∷ [];
  user_list = (codes "ann", rich_user) ∷ [];
}

abbrev client_trader : Trader ℕ
client_trader = record trader { sr = client_server }

abbrev receiver : Receiver
receiver = record { recv_str = []; temp_str = codes "87|a" }

abbrev bytes : List Text
bytes = codes "|&<3&87|b" ∷ codes "|&" ∷ []

receive_loop-orders_example :
    (ms : List Text) × (r' : Receiver) × (receive_loop platform
        (some_all bytes)
        0
        receiver
        client_server
      ≡ (ok r', with_orders (orders_in (pos 3) ms) client_server))
    × (split (receiver.temp_str ++ stream bytes) amp ≡ ms ++ split r'.temp_str amp)
    × (contains b'&' r'.temp_str ≡ false)
unfolding split contains
receive_loop-orders_example =
    receive_loop-orders platform bytes 0 client receiver client_server refl refl refl refl
      (is_nonzero-All (codes "87|a") refl) refl
      (
        ((refl, refl, is_nonzero-All (codes "|&<3&87|b") refl), omega arith),
        (((refl, refl, is_nonzero-All (codes "|&") refl), omega arith), tt),
      )
      (inl (codes "a|", refl), (inr ([], refl), (inl (codes "b|", refl), tt)))

abbrev order : OrderText
order = record {
  nid = codes "7";
  price_text = codes "60";
  side_text = codes "1";
  fourth = codes "1";
  fifth = codes "1";
  symbol = codes "KKC";
}

unfoldable order-Readable : Readable platform order
unfolding stoi join
order-Readable = record {
  price = 600;
  side_number = pos 1;
  is_price = refl;
  is_side = refl;
  separate = (
    is_clean-IsField b'|' b'8' (codes "7") refl,
    (
      is_clean-IsField b'|' b'7' [] refl,
      (
        is_clean-IsField b'|' b'6' (codes "0") refl,
        (
          is_clean-IsField b'|' b'1' [] refl,
          (
            is_clean-IsField b'|' b'1' [] refl,
            (
              is_clean-IsField b'|' b'1' [] refl,
              (is_clean-IsField b'|' b'K' (codes "KC") refl, tt),
            ),
          ),
        ),
      ),
    ),
  );
  whole = is_clean-IsField b'&' b'8' (codes "7|7|60|1|1|1|KKC|") refl;
}

unfoldable client-Ready : Ready platform 0 client rich_user client_server
unfolding new_queue
client-Ready = record {
  alive = refl;
  logged = refl;
  receiving = refl;
  stored = refl;
  registered = refl;
  small = omega arith;
  empty = refl;
}

abbrev start_receiver : Receiver
start_receiver = record { recv_str = []; temp_str = [] }

get_order-client_example :
    Answered
      (get_order platform 4 (received platform order 0 start_receiver client_trader))
      client_trader
      5
      (codes "7|success\n")
      (insert_order_query platform
          (data_of (request_of platform order order-Readable (pos 3)) (pos (4 * 2 ^ 32 + 1)))
        ∷ [])
unfolding verify verify_text refuses listed join order-Readable
get_order-client_example =
    get_order-client platform 4 order order-Readable 0 client rich_user start_receiver client_trader
      OrderStatus.verified (pos (4 * 2 ^ 32 + 1)) (record { nid_sub1 = 4; nid_sub2 = 2 })
      client-Ready refl (omega arith) refl
      (generate_nid-eq client_trader.nids (record { high = omega arith; low = omega arith })
        (omega arith)).0

client_account : Account (pos 3) client_server
client_account = record {
  address = 0;
  connection = client;
  user = rich_user;
  stored = refl;
  alive = refl;
  registered = refl;
}

-- an order at a price outside the band
handle_order-Answered_example :
    Answered
      (handle_order platform 4 (codes "87|7|70|1|1|1|KKC|3|") client_trader)
      client_trader
      5
      (codes "7|failed\n")
      []
unfolding read_request split stoi verify verify_text refuses listed client_account
handle_order-Answered_example =
    handle_order-Answered platform 4 (codes "87|7|70|1|1|1|KKC|3|")
      (record {
        nid = codes "7";
        price = 700;
        side_text = codes "1";
        side_number = pos 1;
        symbol = codes "KKC";
        conn = pos 3;
      })
      OrderStatus.failed client_trader (pos (4 * 2 ^ 32 + 1))
      (record { nid_sub1 = 4; nid_sub2 = 2 }) client_account (λ t'. refl) refl
      (generate_nid-eq client_trader.nids (record { high = omega arith; low = omega arith })
        (omega arith)).0
