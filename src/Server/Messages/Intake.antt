-- ===== src/Server/Messages/Intake.antt =====
-- From the bytes of a logged-in client to the queue of the orders.
use inertia_trader.Common.{
  ℕ, ◌<◌, ◌≡◌, refl, sym, ap, ◌∙◌, subst, ◌⊎◌, inl, inr, true, false, Option, some, List, [], ◌∷◌,
  ◌++◌, Text, codes, text_eq, take, get_elem?, set_self, length, All, All-split, append-nil,
  append_assoc, if◌then◌else◌, arith,
}
use inertia_trader.Common.Int.{ℤ}
use inertia_trader.Common.Decimal.{int_to_string, stoi}
use inertia_trader.Common.Action.{ok, ◌>>=◌, zoom, pure}
use inertia_trader.Common.Action.Laws.{>>=-ok, or_fault->>=, catching-ok}
use inertia_trader.Platform.{Platform}
use inertia_trader.Funclib.Split.{contains, split, amp}
use inertia_trader.Funclib.DataQueue.{push_dta}
use inertia_trader.Funclib.Split.Laws.{NoNul, c_str_self}
use inertia_trader.Connection.{Connection, recvfrom, recvbuflen}
use inertia_trader.Server.{Server, write_connection}
use inertia_trader.Server.Framing.{frame}
use inertia_trader.Server.Framing.Stream.{Completes, stream, stream-cut}
use inertia_trader.Server.Messages.{
  tagged, dispatch, route, msg_handler, handle_all, deliver, msg_recv, receive_loop, Receiver,
}

-- A message with the code of an order, or a heartbeat.
abbrev pub IsOrder : Text → Type 0
IsOrder m = (r : Text) × (m ≡ codes "87|" ++ r)

abbrev pub IsBeat : Text → Type 0
IsBeat m = (r : Text) × (m ≡ codes "<3" ++ r)

-- The orders among the messages, as they are queued.
abbrev pub orders_in : ℤ → List Text → List Text
orders_in id [] = []
orders_in id (m ∷ ms) =
    let rest = orders_in id ms in
    if text_eq (take 2 m) (codes "<3") then rest else tagged m id ∷ rest

-- The `recv` calls that give these bytes.
abbrev pub some_all : List Text → List (Option Text)
some_all [] = []
some_all (b ∷ bs) = some b ∷ some_all bs

orders_in-cons :
    (id : ℤ) (m : Text) (ms : List Text)
    → orders_in id (m ∷ ms) ≡ orders_in id (m ∷ []) ++ orders_in id ms
orders_in-cons id m ms = ground arith

orders_in-append :
    (id : ℤ) (ms ns : List Text) → orders_in id (ms ++ ns) ≡ orders_in id ms ++ orders_in id ns
orders_in-append id [] ns = refl
orders_in-append id (m ∷ ms) ns = ground (arith, orders_in-append id ms ns)

module _ {N : Type 0} where
  abbrev pub with_queue : List Text → Server N → Server N
  with_queue ms s = record s { dq = record (s.dq) { data_queue = ms } }

  -- The server with more texts in its queue of orders.
  abbrev pub with_orders : List Text → Server N → Server N
  with_orders ms s = with_queue (s.dq.data_queue ++ ms) s

recvfrom-short :
    (bytes str : Text) (c : Connection)
    → length bytes < recvbuflen
    → NoNul bytes
    → recvfrom (some bytes) str c ≡ (ok (bytes, c.recv_status), c)
unfolding recvfrom
recvfrom-short bytes str c short clean = rw (c_str_self bytes clean) (ground arith)

module _ {N : Type 0} (P : Platform N) where
  route-order :
      (r : Text) (s : Server N)
      → route P (codes "87|" ++ r) s ≡ (ok tt, with_orders ((codes "87|" ++ r) ∷ []) s)
  unfolding route dispatch push_dta stoi
  route-order r s = refl

  msg_handler-order :
      (r : Text) (s : Server N)
      → msg_handler P (codes "87|" ++ r) s ≡ (ok tt, with_orders ((codes "87|" ++ r) ∷ []) s)
  unfolding msg_handler
  msg_handler-order r s = catching-ok (route P (codes "87|" ++ r)) s _ (route-order r s)

  msg_handler-beat : (r : Text) (s : Server N) → msg_handler P (codes "<3" ++ r) s ≡ (ok tt, s)
  unfolding msg_handler
  msg_handler-beat r s = refl

  handle_one :
      (m : Text) (id : ℤ) (s : Server N)
      → IsOrder m ⊎ IsBeat m
      → msg_handler P (tagged m id) s ≡ (ok tt, with_orders (orders_in id (m ∷ [])) s)
  handle_one m id s (inl (r, e)) =
      rw e (msg_handler-order (r ++ (codes "|" ++ (int_to_string id ++ codes "|"))) s)
  handle_one m id s (inr (r, e)) = rw e (
      msg_handler-beat (r ++ (codes "|" ++ (int_to_string id ++ codes "|"))) s
      ∙ ap (λ d. (ok tt, with_queue d s)) (sym (append-nil s.dq.data_queue)))

  -- Orders and heartbeats: the orders are queued, each with its tag, in the order they came in.
  handle_all-orders :
      (ms : List Text) (id : ℤ) (s : Server N)
      → All (λ m. IsOrder m ⊎ IsBeat m) ms
      → handle_all P ms id s ≡ (ok tt, with_orders (orders_in id ms) s)
  unfolding handle_all
  handle_all-orders [] id s tt =
      ap (λ d. (ok tt, with_queue d s)) (sym (append-nil s.dq.data_queue))
  handle_all-orders (m ∷ ms) id s (h, all) =
      >>=-ok (msg_handler P (tagged m id)) (λ _. handle_all P ms id) s _ tt (handle_one m id s h)
      ∙ handle_all-orders ms id _ all
      ∙ ap (λ d. (ok tt, with_queue d s))
          (append_assoc s.dq.data_queue (orders_in id (m ∷ [])) (orders_in id ms)
            ∙ ap (◌++◌ s.dq.data_queue) (sym (orders_in-cons id m ms)))

  deliver-orders :
      (sub : Text) (a : ℕ) (c : Connection) (s : Server N)
      → get_elem? s.conns a ≡ some c
      → c.login_flag ≡ true
      → All (λ m. IsOrder m ⊎ IsBeat m) (split sub amp)
      → deliver P sub a s ≡ (ok tt, with_orders (orders_in c.connection_id (split sub amp)) s)
  unfolding deliver
  deliver-orders sub a c s at logged all =
      rw (deliver, or_fault->>= _ s at, logged)
        (handle_all-orders (split sub amp) c.connection_id s all)

  receive_on :
      (bytes str : Text) (a : ℕ) (c : Connection) (s : Server N)
      → get_elem? s.conns a ≡ some c
      → length bytes < recvbuflen
      → NoNul bytes
      → zoom (λ s. c) (λ c' s. write_connection a c' s) (recvfrom (some bytes) str) s
        ≡ (ok (bytes, c.recv_status), s)
  receive_on bytes str a c s at short clean =
      ap (λ p. (p.0, write_connection a p.1 s)) (recvfrom-short bytes str c short clean)
      ∙ ap (λ cs. (ok (bytes, c.recv_status), record s { conns = cs })) (set_self s.conns a c at)

  pub msg_recv-orders :
      (bytes sub kept : Text) (a : ℕ) (c : Connection) (r : Receiver) (s : Server N)
      → get_elem? s.conns a ≡ some c
      → c.login_flag ≡ true
      → c.recv_status ≡ true
      → length bytes < recvbuflen
      → NoNul bytes
      → frame r.temp_str bytes ≡ ok (sub, kept)
      → All (λ m. IsOrder m ⊎ IsBeat m) (split sub amp)
      → msg_recv P (some bytes) a r s ≡ (
        ok (true, record { recv_str = bytes; temp_str = kept }),
        with_orders (orders_in c.connection_id (split sub amp)) s,
      )
  unfolding msg_recv
  msg_recv-orders bytes sub kept a c r s at logged receiving short clean e all =
      rw
        (
          msg_recv,
          or_fault->>= _ s at,
          >>=-ok _ _ s s (bytes, c.recv_status) (receive_on bytes r.recv_str a c s at short clean),
          receiving,
        )
        (rw e (
          >>=-ok (deliver P sub a) (λ _. pure (true, record { recv_str = bytes; temp_str = kept }))
            s _ tt (deliver-orders sub a c s at logged all)))

  -- The loop, from a server that runs.
  receive_loop-step :
      (bytes : Text) (later : List (Option Text)) (a : ℕ) (r r' : Receiver) (s s' : Server N)
      → s.conn_status ≡ true
      → msg_recv P (some bytes) a r s ≡ (ok (true, r'), s')
      → receive_loop P (some bytes ∷ later) a r s ≡ receive_loop P later a r' s'
  unfolding receive_loop
  receive_loop-step bytes later a r r' s s' running e =
      ap
        (λ b.
          (if b
              then (msg_recv P (some bytes) a r >>= λ x.
                  if x.0 then receive_loop P later a x.1 else pure x.1)
              else pure r)
            s)
        running
      ∙ >>=-ok (msg_recv P (some bytes) a r)
          (λ x. if x.0 then receive_loop P later a x.1 else pure x.1) s s' (true, r') e

  -- A receive of a running client: it completes a message, and leaves room for the NUL in the buffer.
  abbrev pub Fits : Text → Type 0
  Fits b = Completes b × (length b < recvbuflen)

  -- On a server that runs, for a client that is logged in and receiving, with an
  -- unfinished text without NUL kept, or none, and receives that each complete a message, fit the buffer, have no NUL
  -- and are no bare heartbeat: if the messages of the whole stream are orders and heartbeats, the
  -- loop of `msgRecv` goes on through all of them, and puts the orders into the queue, each once,
  -- with its tag, in the order of the stream, but for an unfinished text, which is kept. Nothing
  -- else of the server changes.
  pub receive_loop-orders :
      (bs : List Text) (a : ℕ) (c : Connection) (r : Receiver) (s : Server N)
      → s.conn_status ≡ true
      → get_elem? s.conns a ≡ some c
      → c.login_flag ≡ true
      → c.recv_status ≡ true
      → NoNul r.temp_str
      → contains b'&' r.temp_str ≡ false
      → All Fits bs
      → All (λ m. IsOrder m ⊎ IsBeat m) (split (r.temp_str ++ stream bs) amp)
      → (ms : List Text) × (r' : Receiver) × (receive_loop P (some_all bs) a r s
          ≡ (ok r', with_orders (orders_in c.connection_id ms) s))
        × (split (r.temp_str ++ stream bs) amp ≡ ms ++ split r'.temp_str amp)
        × (contains b'&' r'.temp_str ≡ false)
  unfolding receive_loop
  receive_loop-orders [] a c r s running at logged receiving clean lacks fits all = (
    [],
    r,
    ap (λ d. (ok r, with_queue d s)) (sym (append-nil s.dq.data_queue)),
    ap (λ x. split x amp) (append-nil r.temp_str),
    lacks,
  )
  receive_loop-orders (b ∷ bs) a c r s running at logged receiving clean lacks ((done, short), fits)
        all =
      let (sub, kept, e, cuts, kclean, klacks) = stream-cut r.temp_str b bs clean done in
      let (here, later) =
        All-split (λ m. IsOrder m ⊎ IsBeat m) (split sub amp) (split (kept ++ stream bs) amp)
          (subst (All (λ m. IsOrder m ⊎ IsBeat m)) cuts all) in
      let r1 : Receiver = record { recv_str = b; temp_str = kept } in
      let s1 = with_orders (orders_in c.connection_id (split sub amp)) s in
      let (ms, r', e', whole, tlacks) =
        receive_loop-orders bs a c r1 s1 running at logged receiving kclean klacks fits later in
      (
        split sub amp ++ ms,
        r',
        receive_loop-step b (some_all bs) a r r1 s s1 running
              (msg_recv-orders b sub kept a c r s at logged receiving short done.2 e here)
            ∙ e'
            ∙ ap (λ d. (ok r', with_queue d s))
                (append_assoc s.dq.data_queue (orders_in c.connection_id (split sub amp))
                    (orders_in c.connection_id ms)
                  ∙ ap (◌++◌ s.dq.data_queue)
                      (sym (orders_in-append c.connection_id (split sub amp) ms))),
        cuts
            ∙ ap (◌++◌ (split sub amp)) whole
            ∙ sym (append_assoc (split sub amp) ms (split r'.temp_str amp)),
        tlacks,
      )
