-- ===== src/Server/Messages.antt =====
-- `Server::msgHandler`, `loginMsgHandle` and one round of `msgRecv`.
pub mod Dispatch
pub mod Tagging
pub mod Leaving
pub mod Login
pub mod Intake
use inertia_trader.Common.{
  ℕ, zero, suc, ◌+◌, ◌%◌, Bool, true, false, not, ◌&&◌, ◌||◌, Option, none, some, List, [], ◌∷◌,
  ◌++◌, Text, codes, get_elem?, set, if◌then◌else◌, text_eq, is_empty, take, up_to,
}
use inertia_trader.Common.Int.{ℤ, pos, int_eq}
use inertia_trader.Common.Decimal.{stoi, int_to_string, nat_to_string}
use inertia_trader.Common.Map.{Map, lookup, insert, text_key}
use inertia_trader.Common.Action.{
  Action, Outcome, ok, fault, throws, ◌>>=◌, ◌>>◌, pure, or_fault, or_throw, gets, modify, zoom,
  when, catching,
}
use inertia_trader.Platform.{Platform}
use inertia_trader.Types.{Stock, UserData}
use inertia_trader.Funclib.Split.{split, bar, amp}
use inertia_trader.Funclib.DataQueue.{DataQueue, push_dta}
use inertia_trader.Database.{add_trader}
use inertia_trader.Connection.{Connection, recvfrom, set_login_flag}
use inertia_trader.Server.{
  Server, on_history, connection_at, write_connection, send_on, send_to_client, quote_at,
}
use inertia_trader.Server.Sockets.{free_empty_socket}
use inertia_trader.Server.Framing.{frame}

-- Every message of a logged-in client gets the id of its connection as the last field.
abbrev pub tagged : Text → ℤ → Text
tagged msg id = msg ++ (codes "|" ++ (int_to_string id ++ codes "|"))

-- The texts that the thread keeps between two rounds.
pub record Receiver : Type 0 where
  pub recv_str : Text
  pub temp_str : Text

module _ {N : Type 0} where
  abbrev pub push_order : Text → Action (Server N) (Unit {0})
  push_order msg = zoom (λ s. s.dq) (λ q s. record s { dq = q }) (push_dta msg)

  abbrev pub push_change : Text → Action (Server N) (Unit {0})
  push_change msg =
      zoom (λ s. s.dq_orderhandle) (λ q s. record s { dq_orderhandle = q }) (push_dta msg)

module _ {N : Type 0} (P : Platform N) where
  -- The two arguments of `sendToClient`, in the order in which the compiler evaluates them.
  unfoldable pub quote_arguments : Text → Text → Action (Server N) (ℤ × Stock N)
  quote_arguments name id =
      if P.right_to_left
      then (do st ← quote_at name; conn ← or_throw (stoi id); pure (conn, st))
      else (do conn ← or_throw (stoi id); st ← quote_at name; pure (conn, st))

  abbrev pub quote_reply : Stock N → Text
  quote_reply st = codes "1233|" ++ (P.to_string st.price_now ++ codes "|&")

  -- The body of the `try` of `case 1233`
  unfoldable pub answer_price : Text → Action (Server N) (Unit {0})
  answer_price msg = do
    name ← or_fault (get_elem? (split msg bar) 1)
    id ← or_fault (get_elem? (split msg bar) 2)
    (conn, st) ← quote_arguments name id
    send_to_client P conn (quote_reply st)

  unfoldable pub ask_price : Text → Action (Server N) (Unit {0})
  ask_price msg = catching (answer_price msg)

  -- The `switch`. There is no `break` behind cases 88 and 89.
  unfoldable pub dispatch : ℤ → Text → Action (Server N) (Unit {0})
  dispatch code msg =
      if int_eq code (pos 87)
      then push_order msg
      else if int_eq code (pos 88) || int_eq code (pos 89)
      then (do push_change msg; ask_price msg)
      else if int_eq code (pos 1233)
      then ask_price msg
      else pure tt

  -- The body of the `try` of `msgHandler`
  unfoldable pub route : Text → Action (Server N) (Unit {0})
  route msg = do code ← or_throw (stoi (up_to b'|' msg)); dispatch code msg

  unfoldable pub msg_handler : Text → Action (Server N) (Unit {0})
  msg_handler msg = if text_eq (take 2 msg) (codes "<3") then pure tt else catching (route msg)

  abbrev pub draw : Action (Server N) ℕ
  draw s = (ok (P.rand s.draws), record s { draws = s.draws + 1 })

  -- `cn->sendto(head + std::to_string(rand() % 100000) + "\n")`
  unfoldable pub send_number : ℕ → Text → Action (Server N) (Unit {0})
  send_number a head = do n ← draw; send_on P a (head ++ (nat_to_string (n % 100000) ++ codes "\n"))

  unfoldable pub mark_login : ℕ → Text → Action (Server N) (Unit {0})
  mark_login a name = do
    c ← connection_at a
    modify (write_connection a (record (set_login_flag true c) { username = name }))

  unfoldable pub log_in : ℕ → Text → Action (Server N) (Unit {0})
  log_in a name = do
    send_number a (codes "login|")
    send_number a (codes "1234|")
    mark_login a name

  -- A user that is not listed gives `end()`, and `it->second` is undefined.
  unfoldable pub verify_login : List Text → ℕ → Action (Server N) (Unit {0})
  verify_login res a = do
    s ← gets (λ s. s)
    if is_empty s.user_list then pure tt else (do
      name ← or_fault (get_elem? res 1)
      ud ← or_fault (lookup name s.user_list)
      password ← or_fault (get_elem? res 2)
      if text_eq ud.password password then log_in a name else pure tt)

  unfoldable pub add_user : List Text → Action (Server N) (Unit {0})
  add_user res = catching (do
    name ← or_fault (get_elem? res 1)
    password ← or_fault (get_elem? res 2)
    balance_text ← or_fault (get_elem? res 3)
    balance ← or_throw (P.stod balance_text)
    book_text ← or_fault (get_elem? res 4)
    book ← or_throw (P.stod book_text)
    let ud : UserData N = record {
      user_id = name;
      password = password;
      balance = balance;
      book_value = book;
    }
    added ← on_history (add_trader P ud)
    when added (modify (λ s. record s { user_list = insert name ud s.user_list })))

  unfoldable pub login_msg_handle : Text → ℕ → Action (Server N) (Unit {0})
  login_msg_handle msg a =
      if text_eq (take 4 msg) (codes "1234")
      then catching (verify_login (split msg bar) a)
      else if text_eq (take 4 msg) (codes "1238")
      then add_user (split msg bar)
      else pure tt

  unfoldable pub handle_all : List Text → ℤ → Action (Server N) (Unit {0})
  handle_all [] id = pure tt
  handle_all (m ∷ ms) id = do msg_handler (tagged m id); handle_all ms id

  -- What one round of the loop does with the bytes that it has cut.
  unfoldable pub deliver : Text → ℕ → Action (Server N) (Unit {0})
  deliver sub a = do
    c ← connection_at a
    if c.login_flag then handle_all (split sub amp) c.connection_id else login_msg_handle sub a

  -- One round of `msgRecv`. The result says whether the loop goes on.
  unfoldable pub msg_recv : Option Text → ℕ → Receiver → Action (Server N) (Bool × Receiver)
  msg_recv received a r = do
    c ← connection_at a
    (str, alive) ← zoom (λ s. c) (λ c' s. write_connection a c' s) (recvfrom received r.recv_str)
    if alive
        then (do
          (sub, temp) ← (λ s. (frame r.temp_str str, s))
          deliver sub a
          pure (true, record { recv_str = str; temp_str = temp }))
        else (do free_empty_socket; pure (false, record { recv_str = str; temp_str = r.temp_str }))

  -- `msgRecv` for the results of the `recv` calls so far; behind them it waits for the next one.
  unfoldable pub receive_loop : List (Option Text) → ℕ → Receiver → Action (Server N) Receiver
  receive_loop [] a r = pure r
  receive_loop (received ∷ later) a r = do
    status ← gets (λ s. s.conn_status)
    if status
        then (do
          (alive, r') ← msg_recv received a r
          if alive then receive_loop later a r' else pure r')
        else pure r
