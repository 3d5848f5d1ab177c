-- ===== src/Trader/Orders/Client.antt =====
-- An order of a logged-in client, from the bytes that it sends to the answer on its socket.
use inertia_trader.Common.{
  ℕ, ◌<◌, ◌≡◌, refl, sym, ap, ◌∙◌, subst, ◌≢◌, ◌⊎◌, inl, true, some, List, [], ◌∷◌, ◌++◌, Text,
  codes, length, All, All-imp, get_elem?, arith, ltb, suc, if◌then◌else◌, All-append,
}
use inertia_trader.Common.Int.{ℤ}
use inertia_trader.Common.Decimal.{stoi, int_to_string}
use inertia_trader.Common.Decimal.RoundTrip.{IsInt, stoi-int_to_string}
use inertia_trader.Common.Map.{lookup, int_key, text_key}
use inertia_trader.Common.Action.{ok, ◌>>=◌, zoom, pure}
use inertia_trader.Common.Action.Laws.{or_throw->>=}
use inertia_trader.Platform.{Platform}
use inertia_trader.Types.{OrderStatus, UserData}
use inertia_trader.Funclib.Split.{split, bar, amp}
use inertia_trader.Funclib.Split.Laws.{NoNul}
use inertia_trader.Funclib.Split.Fields.{IsField, join}
use inertia_trader.Funclib.Split.RoundTrip.{split-join, split_self}
use inertia_trader.Funclib.DataQueue.{pop_dta, check_space}
use inertia_trader.Database.{insert_order_query}
use inertia_trader.Connection.{Connection, recvbuflen}
use inertia_trader.Server.{Server}
use inertia_trader.Server.Framing.{frame}
use inertia_trader.Server.Framing.Stream.{frame-whole}
use inertia_trader.Server.Messages.{tagged, msg_recv, Receiver}
use inertia_trader.Server.Messages.Tagging.{split-tagged}
use inertia_trader.Server.Messages.Intake.{msg_recv-orders, with_queue, orders_in, IsOrder, IsBeat}
use inertia_trader.Trader.{Trader, on_server}
use inertia_trader.Trader.Nid.{NidSource, generate_nid}
use inertia_trader.Trader.Risk.{verify}
use inertia_trader.Trader.Orders.{Request, read_request, data_of, get_order, handle_order}
use inertia_trader.Trader.Orders.Outcomes.{Account}
use inertia_trader.Trader.Orders.Replies.{Answered, reply_text, commands, handle_order-Answered}

-- The seven fields of the message of an order, without the code 87.
pub record OrderText : Type 0 where
  pub nid : Text
  pub price_text : Text
  pub side_text : Text
  pub fourth : Text
  pub fifth : Text
  pub symbol : Text

abbrev pub fields_of : OrderText → List Text
fields_of o = codes "87" ∷ o.nid ∷ o.price_text ∷ o.side_text ∷ o.fourth ∷ o.fifth ∷ o.symbol ∷ []

abbrev pub message_of : OrderText → Text
message_of o = join b'|' (fields_of o)

some_space : (n : ℕ) → ltb 0 (suc n) ≡ true
some_space n = ground arith

module _ {N : Type 0} (P : Platform N) where
  -- What the trader reads of it, if the price and the side are numbers.
  pub record Readable (o : OrderText) : Type 0 where
    pub price : N
    pub side_number : ℤ
    pub is_price : P.stod o.price_text ≡ some price
    pub is_side : stoi o.side_text ≡ some side_number
    pub separate : All (IsField bar) (fields_of o)
    pub whole : IsField amp (message_of o)

module _ {N : Type 0} (P : Platform N) where
  abbrev pub request_of : (o : OrderText) → Readable P o → ℤ → Request N
  request_of o r id = record {
    nid = o.nid;
    price = r.price;
    side_text = o.side_text;
    side_number = r.side_number;
    symbol = o.symbol;
    conn = id;
  }

  clean_message : (o : OrderText) → Readable P o → NoNul (message_of o)
  clean_message o r = All-imp (message_of o) (λ c h. h.1) r.whole.1

  split-tagged_order :
      (o : OrderText) (r : Readable P o) (id : ℤ)
      → split (tagged (message_of o) id) bar ≡ fields_of o ++ int_to_string id ∷ []
  split-tagged_order o r id =
      split-tagged (message_of o) id (clean_message o r)
      ∙ ap (λ fs. fs ++ int_to_string id ∷ []) (split-join (fields_of o) r.separate)

  -- The connection of the order is the one that sent it.
  read_request-tagged :
      (o : OrderText) (r : Readable P o) (id : ℤ) (t : Trader N)
      → IsInt id
      → read_request P (split (tagged (message_of o) id) bar) t ≡ (ok (request_of o r id), t)
  unfolding read_request
  read_request-tagged o r id t small =
      rw
        (
          split-tagged_order o r id,
          read_request,
          or_throw->>= _ t r.is_price,
          or_throw->>= _ t r.is_side,
          or_throw->>= _ t (stoi-int_to_string id small),
        )
        refl

  abbrev pub with_dq : List Text → Trader N → Trader N
  with_dq ms t = record t { sr = with_queue ms t.sr }

  -- A round of the order thread handles the message at the head of the queue.
  get_order-head :
      (at : ℕ) (msg : Text) (rest : List Text) (t : Trader N)
      → t.sr.dq.data_queue ≡ msg ∷ rest
      → get_order P at t ≡ handle_order P at msg (with_dq rest t)
  unfolding get_order check_space pop_dta
  get_order-head at msg rest t e =
      (λ i. get_order P at (with_dq (e i) t))
      ∙ ap
          (λ b.
            (if b
                then (on_server (zoom (λ s. s.dq) (λ q s. record s { dq = q }) pop_dta) >>= λ msg.
                    handle_order P at msg)
                else pure tt)
              (with_dq (msg ∷ rest) t))
          (some_space (length rest))

  -- A running server, and a client that is logged in, and that the queue of the orders has nothing of.
  pub record Ready (a : ℕ) (c : Connection) (user : UserData N) (s : Server N) : Type 0 where
    pub alive : get_elem? s.conns a ≡ some c
    pub logged : c.login_flag ≡ true
    pub receiving : c.recv_status ≡ true
    pub stored : lookup c.connection_id s.conn_storage ≡ some (some a)
    pub registered : lookup c.username s.user_list ≡ some user
    pub small : IsInt c.connection_id
    pub empty : s.dq.data_queue ≡ []

  -- The trader after the round of `msgRecv` in which the message of the order came in.
  abbrev pub received : OrderText → ℕ → Receiver → Trader N → Trader N
  received o a r t = record t { sr = (msg_recv P (some (message_of o ++ b'&' ∷ [])) a r t.sr).1 }

  received-queue :
      (o : OrderText) (rd : Readable P o) (a : ℕ) (c : Connection) (user : UserData N)
      (r : Receiver) (t : Trader N)
      → Ready a c user t.sr
      → r.temp_str ≡ []
      → length (message_of o ++ b'&' ∷ []) < recvbuflen
      → received o a r t ≡ with_dq (tagged (message_of o) c.connection_id ∷ []) t
  unfolding join
  received-queue o rd a c user r t ready nothing short =
      let m = message_of o in
      let one : split m amp ≡ m ∷ [] = split_self b'&' m (omega arith) rd.whole in
      let bytes_clean =
        All-append (λ c. c ≢ 0) m (b'&' ∷ []) (clean_message o rd) (omega arith, tt) in
      let round =
        msg_recv-orders P (m ++ b'&' ∷ []) m [] a c r t.sr ready.alive ready.logged ready.receiving
          short bytes_clean (ap (λ x. frame x (m ++ b'&' ∷ [])) nothing ∙ frame-whole m)
          (subst (All (λ m. IsOrder m ⊎ IsBeat m)) (sym one) (inl (_, refl), tt)) in
      ap (λ q. record t { sr = q.1 }) round
      ∙ ap (λ ms. with_dq (t.sr.dq.data_queue ++ orders_in c.connection_id ms) t) one
      ∙ ap (λ d. with_dq (d ++ tagged m c.connection_id ∷ []) t) ready.empty

  abbrev account_of :
      (a : ℕ) (c : Connection) (user : UserData N) (t : Trader N)
      → Ready a c user t.sr
      → Account c.connection_id (with_dq [] t).sr
  account_of a c user t ready = record {
    address = a;
    connection = c;
    user = user;
    stored = ready.stored;
    alive = ready.alive;
    registered = ready.registered;
  }

  -- A client that is logged in and receiving, whose connection is stored under its id, an int, and
  -- whose user is registered, sends the message of an order in one receive that fits the buffer,
  -- with nothing kept before it and nothing in the queue. Its fields can be read, the risk check
  -- gives a verdict and the counter a serial number. Then one round of `msgRecv` and one of
  -- `getOrder` end well, and send one text to the socket that the bytes came from: that of the
  -- verdict, of the balance and of the answer of the database. The database gets the order if it is
  -- verified and covered, and no command if not.
  pub get_order-client :
      (at : ℕ) (o : OrderText) (rd : Readable P o) (a : ℕ) (c : Connection) (user : UserData N)
      (r : Receiver) (t : Trader N) (status : OrderStatus) (serial : ℤ) (n : NidSource)
      → Ready a c user t.sr
      → r.temp_str ≡ []
      → length (message_of o ++ b'&' ∷ []) < recvbuflen
      → verify P.floats t.product_list t.trade_basic_data rd.price o.symbol ≡ ok status
      → generate_nid t.nids ≡ (ok serial, n)
      → let query = insert_order_query P (data_of (request_of o rd c.connection_id) serial) in
        let covered = P.lt (P.mul rd.price P.lot) user.balance in
        Answered
          (get_order P at (received o a r t))
          t
          c.connection_socket
          (o.nid ++ reply_text status covered (P.accepts t.sr.history query) ++ codes "\n")
          (commands status covered query)
  get_order-client at o rd a c user r t status serial n ready nothing short verdict number =
      let msg = tagged (message_of o) c.connection_id in
      let queued : get_order P at (received o a r t) ≡ handle_order P at msg (with_dq [] t) =
        ap (get_order P at) (received-queue o rd a c user r t ready nothing short)
        ∙ get_order-head at msg [] (with_dq (msg ∷ []) t) refl in
      let query = insert_order_query P (data_of (request_of o rd c.connection_id) serial) in
      let covered = P.lt (P.mul rd.price P.lot) user.balance in
      subst
        (λ q.
          Answered q t c.connection_socket
            (o.nid ++ reply_text status covered (P.accepts t.sr.history query) ++ codes "\n")
            (commands status covered query))
        (sym queued)
        (handle_order-Answered P at msg (request_of o rd c.connection_id) status (with_dq [] t)
          serial n (account_of a c user t ready)
          (λ t'. read_request-tagged o rd c.connection_id t' ready.small) verdict number)
