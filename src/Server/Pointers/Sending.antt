-- ===== src/Server/Pointers/Sending.antt =====
-- The calls that send, and those that read a quote.
use inertia_trader.Common.{
  ℕ, ◌+◌, ◌%◌, sym, subst, true, false, Option, none, some, [], ◌∷◌, ◌++◌, Text, codes, length,
  length-append, length-set, set, arith,
}
use inertia_trader.Common.Int.{ℤ, pos}
use inertia_trader.Common.Map.{lookup, insert, int_key, text_key}
use inertia_trader.Common.Action.{
  Action, Outcome, ok, fault, ◌>>=◌, ◌>>◌, pure, or_fault, gets, modify,
}
use inertia_trader.Platform.{Platform}
use inertia_trader.Types.{Stock}
use inertia_trader.Connection.{Connection, new_connection, sendto}
use inertia_trader.Server.{
  Server, get_conn_object, connection_at, send_on, send_to_client, quote_at, write_connection,
  set_conn_status,
}
use inertia_trader.Server.Sockets.{accept_conn, heartbeat, free_empty_socket}
use inertia_trader.Server.Pointers.{
  AllBelow, AllBelow-le, AllBelow-insert, IsSound, Sound, Sound->>=, Sound-pure, Sound-or_fault,
  Sound-if, Sound-call, Sound-connection_at, Sound-get_conn_object, Sound-free_empty_socket,
}

module _ {N : Type 0} (P : Platform N) where
  -- A write to a connection leaves their number as it is.
  pub write-IsSound :
      (a : ℕ) (c : Connection) (s : Server N) → IsSound s → IsSound (write_connection a c s)
  write-IsSound a c s h = subst (λ n. AllBelow n s.conn_storage) (sym (length-set s.conns a c)) h

  pub Sound-send_on : (a : ℕ) (text : Text) → Sound (send_on P a text)
  unfolding send_on
  Sound-send_on a text = Sound->>= P (connection_at a) _ (Sound-connection_at P a) λ c.
      Sound-call P (sent c)
        (λ s h. write-IsSound a (sendto (P.delivers s.wire c.connection_socket text) c) s h)
    where
      sent : Connection → Action (Server N) (Unit {0})
      sent c = gets (λ s. s) >>= λ s. modify (λ s. record s {
        conns = set s.conns a (sendto (P.delivers s.wire c.connection_socket text) c);
        wire = s.wire ++ (c.connection_socket, text) ∷ [];
      })

  pub Sound-send_to_client : (conn : ℤ) (msg : Text) → Sound (send_to_client P conn msg)
  unfolding send_to_client
  Sound-send_to_client conn msg =
      Sound->>= P (get_conn_object conn) _ (Sound-get_conn_object P conn) λ p.
        Sound->>= P (or_fault p) _ (Sound-or_fault P p) λ a. Sound-send_on a (msg ++ codes "\n")

  pub Sound-quote_at : (name : Text) → Sound (quote_at {N = N} name)
  unfolding Sound quote_at
  Sound-quote_at name s h = found (lookup name s.quotes_list)
    where
      found :
          (o : Option (Option (Stock N)))
          → IsSound
              (elim o as (λ _. Outcome (Stock N) × Server N) [
                | none ↦ (fault, record s { quotes_list = insert name none s.quotes_list })
                | some none ↦ (fault, s)
                | some (some st) ↦ (ok st, s)
              ]).1
      found none = h
      found (some none) = h
      found (some (some st)) = h

  pub Sound-accept_conn : (socket : Option ℕ) → Sound (accept_conn P socket)
  unfolding accept_conn Sound set_conn_status
  Sound-accept_conn none s h = h
  Sound-accept_conn (some socket) s h =
      let n = length s.conns in
      let more =
        length-append s.conns
          (new_connection socket (pos (P.rand s.draws % 99)) (P.unset_flag n) ∷ []) in
      subst (λ k. AllBelow k (insert (pos (P.rand s.draws % 99)) (some n) s.conn_storage))
        (sym more)
        (AllBelow-insert (n + 1) (pos (P.rand s.draws % 99)) (some n) s.conn_storage
          (omega arith, tt) (AllBelow-le n (n + 1) s.conn_storage (omega arith) h))

  pub Sound-heartbeat : (a : ℕ) → Sound (heartbeat P a)
  unfolding heartbeat
  Sound-heartbeat a =
      Sound->>= P (send_on P a (codes "<3&\n")) _ (Sound-send_on a (codes "<3&\n")) λ _.
        Sound->>= P (connection_at a) _ (Sound-connection_at P a) λ c.
          Sound-if P c.recv_status (pure true) (free_empty_socket >> pure false) (Sound-pure P true)
            (Sound->>= P free_empty_socket (λ _. pure false) (Sound-free_empty_socket P)
              λ _. Sound-pure P false)
