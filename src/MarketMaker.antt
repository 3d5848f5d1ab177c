-- ===== src/MarketMaker.antt =====
-- src/MarketMaker/client.{h,cpp}: the market maker, a client that logs in and keeps sending a buy
-- and a sell order.
pub mod Replies
pub mod Counting
pub mod Receives
pub mod Limits
pub mod Hearing
pub mod Reconnect
use inertia_trader.Common.{
  ℕ, zero, suc, ◌+◌, Bool, true, false, not, Option, none, some, List, [], ◌∷◌, ◌++◌, Text, codes,
  text_eq, get_elem?, take, ltb, if◌then◌else◌, length,
}
use inertia_trader.Common.Int.{ℤ, pos, int_eq}
use inertia_trader.Common.Decimal.{stoi}
use inertia_trader.Common.Action.{
  Action, Outcome, ok, fault, throws, ◌>>=◌, ◌>>◌, pure, or_fault, or_throw, zoom, gets, modify,
  catching, when,
}
use inertia_trader.Funclib.InitParser.{InitParser, new_parser, read_line, setting}
use inertia_trader.Common.Floats.{Floats}
use inertia_trader.Funclib.Split.{split, bar, c_str}

pub record Client (N : Type 0) : Type 0 where
  pub conn_calculate : ℕ
  pub price_now : Option N
  pub order_num : ℕ
  pub order_limitation : ℕ
  pub login_flag : Bool
  pub inventory_limit : ℕ
  pub inventory_num : ℕ
  pub exit_flag : Bool
  pub first_conn_flag : Bool
  pub conn_status : Bool
  pub ip : InitParser
  -- what was handed to `send`, the oldest first
  pub sent : List Text

-- The members before the constructor runs, with the parser for a section of the settings.
unfoldable pub new_client : {N : Type 0} → Text → Client N
unfolding new_parser
new_client chosen = record {
  conn_calculate = 0;
  price_now = none;
  order_num = 0;
  order_limitation = 10;
  login_flag = false;
  inventory_limit = 10;
  inventory_num = 0;
  exit_flag = false;
  first_conn_flag = true;
  conn_status = false;
  ip = new_parser chosen;
  sent = [];
}

-- The lines of the settings file at an attempt, and the results of `socket`, `inet_pton` and `connect`.
-- Where `socket` fails, `connStatus_` stays.
pub record ConnectCalls : Type 0 where
  pub settings : Option (List Text)
  pub socket_ok : Bool
  pub address_ok : Bool
  pub connect_ok : Bool

abbrev pub buy_order : Text
buy_order = codes "87|313542|60|1|1|1|KKC|&"

abbrev pub sell_order : Text
sell_order = codes "87|313542|64|2|1|1|KKC|&"

-- How the loop goes on: connected, given up at the first connection, given up for good, or again.
abbrev pub after_attempt : {A : Type 0} → Bool → Bool → Bool → A → A → A → A → A
after_attempt true first last up refused lost again = up
after_attempt false true last up refused lost again = refused
after_attempt false false true up refused lost again = lost
after_attempt false false false up refused lost again = again

abbrev pub if_ok : {A : Type 0} → Outcome (Unit {0}) → A → A → A
if_ok (ok _) done ended = done
if_ok throws done ended = ended
if_ok fault done ended = ended

module _ {N : Type 0} where
  abbrev pub set_conn_status : Bool → Client N → Client N
  set_conn_status status c = record c { conn_status = status }

  -- `socketini` from the socket on
  abbrev pub connected : ConnectCalls → Client N → Client N
  connected calls c =
      if not calls.socket_ok
      then c
      else if not calls.address_ok
      then set_conn_status false c
      else set_conn_status calls.connect_ok c

  -- The parser is read again at each attempt; the port that it holds must be a number.
  unfoldable pub socketini : ConnectCalls → Action (Client N) (Unit {0})
  socketini calls = do
    zoom (λ c. c.ip) (λ p c. record c { ip = p }) (read_line calls.settings)
    c ← gets (λ c. c)
    port ← or_throw (stoi (setting (codes "port") c.ip))
    modify (connected calls)

  -- `allowConn`, with what each attempt meets; the attempts that were made, how it ended, and the
  -- client. Nothing catches what `socketini` throws. The rounds that are left are the fuel.
  unfoldable pub allow_conn :
      ℕ → (ℕ → ConnectCalls) → ℕ → Client N → Option (ℕ × Outcome (Unit {0}) × Client N)
  allow_conn zero calls n c = none
  allow_conn (suc fuel) calls n c =
      let (r, c1) = socketini (calls n) c in
      let c2 = record c1 { conn_calculate = c1.conn_calculate + 1 } in
      let again = allow_conn fuel calls (n + 1) c2 in
      if_ok r
        (after_attempt c1.conn_status c1.first_conn_flag (ltb 3 c2.conn_calculate)
          (some (n + 1, ok tt, record c1 { first_conn_flag = false; conn_calculate = 0 }))
          (some (n + 1, ok tt, record c1 { exit_flag = true }))
          (some (n + 1, ok tt, record c2 { exit_flag = true })) again)
        (some (n + 1, r, c1))

  -- `sendMsg`; a failure is thrown and caught inside, and changes nothing.
  unfoldable pub send_msg : Text → Client N → Client N
  send_msg str c = record c { sent = c.sent ++ str ∷ [] }

  -- One round of `heartbeatSending`.
  unfoldable pub heartbeat_sending : Client N → Client N
  heartbeat_sending c =
      if c.login_flag
      then send_msg (codes "1233|KKC|&") (send_msg (codes "<3&") c)
      else send_msg (codes "1234|0324027|123|&") (send_msg (codes "<3&") c)

  -- One round of `startTradingProcess`, before its waits.
  unfoldable pub start_trading_process : Client N → Client N
  start_trading_process c =
      if ltb c.order_num c.order_limitation then send_msg sell_order (send_msg buy_order c) else c

  -- Whether the wait at the end of the round is over.
  abbrev pub may_trade : Client N → Bool
  may_trade c = ltb c.inventory_num c.inventory_limit

module _ {N : Type 0} (F : Floats N) where
  unfoldable pub on_message : ℤ → List Text → Action (Client N) (Unit {0})
  on_message code temp =
      if int_eq code (pos 1233)
      then (do
        text ← or_fault (get_elem? temp 1)
        price ← or_throw (F.stod text)
        modify (λ c. record c { price_now = some price }))
      else if int_eq code (pos 1234)
      then modify (λ c. record c { login_flag = true })
      else (do
        text ← or_fault (get_elem? temp 1)
        if text_eq text (codes "success")
            then modify (λ c. record c { order_num = c.order_num + 1 })
            else if text_eq text (codes "exec")
            then modify (λ c. record c { inventory_num = c.inventory_num + 1 })
            else pure tt)

  -- The body of the `try` of `msgHandler`
  unfoldable pub read_message : Text → Action (Client N) (Unit {0})
  read_message msg = do
    code_text ← or_fault (get_elem? (split msg bar) 0)
    code ← or_throw (stoi code_text)
    on_message code (split msg bar)

  unfoldable pub msg_handler : Text → Action (Client N) (Unit {0})
  msg_handler msg =
      if text_eq (take 2 msg) (codes "<3") then pure tt else catching (read_message msg)

  -- One round of `recvMsg`: the bytes that `recv` gave, or `none`. Filling the buffer makes the NUL
  -- go past its end. A failure closes the socket and connects again.
  unfoldable pub recv_msg : Option Text → (ℕ → ConnectCalls) → ℕ → Action (Client N) (Unit {0})
  recv_msg (some bytes) calls fuel c =
      if ltb (length bytes) 1024 then msg_handler (c_str bytes) c else (fault, c)
  recv_msg none calls fuel c = elim (allow_conn fuel calls 0 (set_conn_status false c)) [
    | none ↦ (ok tt, set_conn_status false c)
    | some (n, r, c') ↦ (r, c')
  ]
