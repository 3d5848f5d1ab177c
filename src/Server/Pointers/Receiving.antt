-- ===== src/Server/Pointers/Receiving.antt =====
-- The calls of `msgRecv`, from the messages to the round.
use inertia_trader.Common.{
  ℕ, ◌%◌, Bool, true, false, ◌||◌, Option, List, [], ◌∷◌, ◌++◌, Text, codes, get_elem?, text_eq,
  is_empty, take, up_to,
}
use inertia_trader.Common.Int.{ℤ, pos, int_eq}
use inertia_trader.Common.Decimal.{stoi, nat_to_string}
use inertia_trader.Common.Map.{lookup, insert, text_key}
use inertia_trader.Common.Action.{◌>>=◌, ◌>>◌, pure, or_fault, or_throw, gets, modify, zoom, when}
use inertia_trader.Platform.{Platform}
use inertia_trader.Types.{UserData}
use inertia_trader.Funclib.Split.{split, bar, amp}
use inertia_trader.Database.{add_trader}
use inertia_trader.Connection.{recvfrom, set_login_flag}
use inertia_trader.Server.{Server, on_history, quote_at, connection_at, write_connection}
use inertia_trader.Server.Framing.{frame}
use inertia_trader.Server.Sockets.{free_empty_socket}
use inertia_trader.Server.Messages.{
  push_order, push_change, quote_arguments, quote_reply, answer_price, ask_price, dispatch, route,
  msg_handler, draw, send_number, mark_login, log_in, verify_login, add_user, login_msg_handle,
  handle_all, deliver, msg_recv, tagged, Receiver,
}
use inertia_trader.Server.Pointers.{
  Sound, Sound->>=, Sound-pure, Sound-or_fault, Sound-or_throw, Sound-if, Sound-call,
  Sound-catching, Sound-connection_at, Sound-free_empty_socket,
}
use inertia_trader.Server.Pointers.Sending.{
  write-IsSound, Sound-send_on, Sound-send_to_client, Sound-quote_at,
}

module _ {N : Type 0} (P : Platform N) where
  Sound-quote_arguments : (name id : Text) → Sound (quote_arguments P name id)
  unfolding quote_arguments
  Sound-quote_arguments name id =
      Sound-if P P.right_to_left _ _
        (Sound->>= P (quote_at name) (λ st. or_throw (stoi id) >>= λ conn. pure (conn, st))
          (Sound-quote_at P name)
          λ st.
            Sound->>= P (or_throw (stoi id)) (λ conn. pure (conn, st)) (Sound-or_throw P (stoi id))
              λ conn. Sound-pure P (conn, st))
        (Sound->>= P (or_throw (stoi id)) (λ conn. quote_at name >>= λ st. pure (conn, st))
          (Sound-or_throw P (stoi id))
          λ conn.
            Sound->>= P (quote_at name) (λ st. pure (conn, st)) (Sound-quote_at P name)
              λ st. Sound-pure P (conn, st))

  Sound-ask_price : (msg : Text) → Sound (ask_price P msg)
  unfolding ask_price answer_price
  Sound-ask_price msg = Sound-catching P _ (
      Sound->>= P (or_fault (get_elem? (split msg bar) 1)) _
        (Sound-or_fault P (get_elem? (split msg bar) 1))
        λ name.
          Sound->>= P (or_fault (get_elem? (split msg bar) 2)) _
            (Sound-or_fault P (get_elem? (split msg bar) 2))
            λ id.
              Sound->>= P (quote_arguments P name id) _ (Sound-quote_arguments name id)
                λ q. Sound-send_to_client P q.0 (quote_reply P q.1))

  Sound-dispatch : (code : ℤ) (msg : Text) → Sound (dispatch P code msg)
  unfolding dispatch
  Sound-dispatch code msg =
      Sound-if P (int_eq code (pos 87)) _ _ (Sound-call P (push_order msg) (λ s h. h)) (
        Sound-if P (int_eq code (pos 88) || int_eq code (pos 89)) _ _
          (Sound->>= P (push_change msg) (λ _. ask_price P msg)
            (Sound-call P (push_change msg) (λ s h. h)) λ _. Sound-ask_price msg)
          (Sound-if P (int_eq code (pos 1233)) _ _ (Sound-ask_price msg) (Sound-pure P tt)))

  Sound-msg_handler : (msg : Text) → Sound (msg_handler P msg)
  unfolding msg_handler route
  Sound-msg_handler msg =
      Sound-if P (text_eq (take 2 msg) (codes "<3")) (pure tt) _ (Sound-pure P tt) (
        Sound-catching P _ (
          Sound->>= P (or_throw (stoi (up_to b'|' msg))) (λ code. dispatch P code msg)
            (Sound-or_throw P (stoi (up_to b'|' msg))) λ code. Sound-dispatch code msg))

  Sound-send_number : (a : ℕ) (head : Text) → Sound (send_number P a head)
  unfolding send_number
  Sound-send_number a head =
      Sound->>= P (draw P) _ (Sound-call P (draw P) (λ s h. h))
        λ n. Sound-send_on P a (head ++ (nat_to_string (n % 100000) ++ codes "\n"))

  Sound-mark_login : (a : ℕ) (name : Text) → Sound (mark_login P a name)
  unfolding mark_login
  Sound-mark_login a name = Sound->>= P (connection_at a) _ (Sound-connection_at P a) λ c.
      Sound-call P
        (modify (write_connection a (record (set_login_flag true c) { username = name })))
        (write-IsSound P a (record (set_login_flag true c) { username = name }))

  Sound-log_in : (a : ℕ) (name : Text) → Sound (log_in P a name)
  unfolding log_in
  Sound-log_in a name =
      Sound->>= P (send_number P a (codes "login|")) _ (Sound-send_number a (codes "login|")) λ _.
        Sound->>= P (send_number P a (codes "1234|")) _ (Sound-send_number a (codes "1234|"))
          λ _. Sound-mark_login a name

  Sound-verify_login : (res : List Text) (a : ℕ) → Sound (verify_login P res a)
  unfolding verify_login
  Sound-verify_login res a =
      Sound->>= P (gets (λ s. s)) _ (Sound-call P (gets (λ s. s)) (λ s h. h)) λ s.
        Sound-if P (is_empty s.user_list) (pure tt) _ (Sound-pure P tt) (
          Sound->>= P (or_fault (get_elem? res 1)) _ (Sound-or_fault P (get_elem? res 1)) λ name.
            Sound->>= P (or_fault (lookup name s.user_list)) _
              (Sound-or_fault P (lookup name s.user_list))
              λ ud.
                Sound->>= P (or_fault (get_elem? res 2)) _ (Sound-or_fault P (get_elem? res 2))
                  λ password.
                    Sound-if P (text_eq ud.password password) (log_in P a name) (pure tt)
                      (Sound-log_in a name) (Sound-pure P tt))

  Sound-add_user : (res : List Text) → Sound (add_user P res)
  unfolding add_user
  Sound-add_user res = Sound-catching P _ (
      Sound->>= P (or_fault (get_elem? res 1)) _ (Sound-or_fault P (get_elem? res 1)) λ name.
        Sound->>= P (or_fault (get_elem? res 2)) _ (Sound-or_fault P (get_elem? res 2)) λ password.
          Sound->>= P (or_fault (get_elem? res 3)) _ (Sound-or_fault P (get_elem? res 3))
            λ balance_text.
              Sound->>= P (or_throw (P.stod balance_text)) _
                (Sound-or_throw P (P.stod balance_text))
                λ balance.
                  Sound->>= P (or_fault (get_elem? res 4)) _ (Sound-or_fault P (get_elem? res 4))
                    λ book_text.
                      Sound->>= P (or_throw (P.stod book_text)) _
                        (Sound-or_throw P (P.stod book_text))
                        λ book.
                          Sound->>= P
                            (on_history (
                              add_trader P (record {
                                user_id = name;
                                password = password;
                                balance = balance;
                                book_value = book;
                              })))
                            _
                            (Sound-call P
                              (on_history (
                                add_trader P (record {
                                  user_id = name;
                                  password = password;
                                  balance = balance;
                                  book_value = book;
                                })))
                              (λ s h. h))
                            λ added.
                              stored name
                                (record {
                                  user_id = name;
                                  password = password;
                                  balance = balance;
                                  book_value = book;
                                })
                                added)
    where
      stored :
          (name : Text) (ud : UserData N) (added : Bool)
          → Sound (
              when added
                (modify (λ (s : Server N). record s { user_list = insert name ud s.user_list })))
      stored name ud true =
          Sound-call P (modify (λ s. record s { user_list = insert name ud s.user_list }))
            (λ s h. h)
      stored name ud false = Sound-pure P tt

  Sound-login_msg_handle : (msg : Text) (a : ℕ) → Sound (login_msg_handle P msg a)
  unfolding login_msg_handle
  Sound-login_msg_handle msg a =
      Sound-if P (text_eq (take 4 msg) (codes "1234")) _ _
        (Sound-catching P (verify_login P (split msg bar) a) (Sound-verify_login (split msg bar) a))
        (Sound-if P (text_eq (take 4 msg) (codes "1238")) (add_user P (split msg bar)) (pure tt)
          (Sound-add_user (split msg bar)) (Sound-pure P tt))

  Sound-handle_all : (ms : List Text) (id : ℤ) → Sound (handle_all P ms id)
  unfolding handle_all
  Sound-handle_all [] id = Sound-pure P tt
  Sound-handle_all (m ∷ ms) id =
      Sound->>= P (msg_handler P (tagged m id)) (λ _. handle_all P ms id)
        (Sound-msg_handler (tagged m id)) λ _. Sound-handle_all ms id

  Sound-deliver : (sub : Text) (a : ℕ) → Sound (deliver P sub a)
  unfolding deliver
  Sound-deliver sub a = Sound->>= P (connection_at a) _ (Sound-connection_at P a) λ c.
      Sound-if P c.login_flag (handle_all P (split sub amp) c.connection_id)
        (login_msg_handle P sub a) (Sound-handle_all (split sub amp) c.connection_id)
        (Sound-login_msg_handle sub a)

  -- A round of `msgRecv`, whatever it receives, and wherever it ends.
  pub Sound-msg_recv :
      (received : Option Text) (a : ℕ) (r : Receiver) → Sound (msg_recv P received a r)
  unfolding msg_recv
  Sound-msg_recv received a r = Sound->>= P (connection_at a) _ (Sound-connection_at P a) λ c.
      Sound->>= P (zoom (λ s. c) (λ c' s. write_connection a c' s) (recvfrom received r.recv_str)) _
        (Sound-call P
          (zoom (λ s. c) (λ c' s. write_connection a c' s) (recvfrom received r.recv_str))
          (λ s h. write-IsSound P a (recvfrom received r.recv_str c).1 s h))
        λ q.
          Sound-if P q.1 _ _
            (Sound->>= P (λ s. (frame r.temp_str q.0, s))
              (λ x. deliver P x.0 a >> pure (true, record { recv_str = q.0; temp_str = x.1 }))
              (Sound-call P (λ s. (frame r.temp_str q.0, s)) (λ s h. h))
              λ x.
                Sound->>= P (deliver P x.0 a)
                  (λ _. pure (true, record { recv_str = q.0; temp_str = x.1 }))
                  (Sound-deliver x.0 a)
                  λ _. Sound-pure P (true, record { recv_str = q.0; temp_str = x.1 }))
            (Sound->>= P free_empty_socket
              (λ _. pure (false, record { recv_str = q.0; temp_str = r.temp_str }))
              (Sound-free_empty_socket P)
              λ _. Sound-pure P (false, record { recv_str = q.0; temp_str = r.temp_str }))
