-- ===== src/Server/Messages/Leaving.antt =====
-- A client that leaves: the receive that fails, and the sweep that msgRecv makes then
-- (src/InertiaTrader/server.cpp).
use inertia_trader.Common.{
  ℕ, ◌≡◌, refl, ap, ◌∙◌, Bool, true, false, none, some, get_elem?, set, if◌then◌else◌,
}
use inertia_trader.Common.Action.{Outcome, ok, fault, ◌>>=◌, pure}
use inertia_trader.Common.Action.Laws.{>>=-ok, or_fault-some}
use inertia_trader.Platform.{Platform}
use inertia_trader.Connection.{Connection, recvfrom, set_recv_status}
use inertia_trader.Server.{Server, connection_at}
use inertia_trader.Server.Sockets.{free_empty_socket}
use inertia_trader.Server.Sockets.Sweeping.{AllLead, kept, odd_tail, free_empty_socket-kept}
use inertia_trader.Server.Messages.{Receiver, msg_recv}

module _ {N : Type 0} (P : Platform N) (a : ℕ) (r : Receiver) (s : Server N) (c : Connection) where
  -- The server once the receive has failed, with the connection dead.
  abbrev pub lost : Server N
  lost = record s { conns = set s.conns a (set_recv_status false c) }

  -- The end of `msgRecv` behind a sweep.
  abbrev left : Outcome (Unit {0}) × Server N → Outcome (Bool × Receiver) × Server N
  left swept = ((λ s. swept) >>= λ u. pure (false, r)) s

  msg_recv-sweeps :
      get_elem? s.conns a ≡ some c → msg_recv P none a r s ≡ left (free_empty_socket lost)
  unfolding msg_recv recvfrom
  msg_recv-sweeps e =
      rw (msg_recv, >>=-ok (connection_at a) _ s s c (or_fault-some (get_elem? s.conns a) c s e))
        refl

  left-if :
      (gone : Bool) (t u : Server N)
      → left (if gone then (fault, t) else (ok tt, u))
        ≡ (if gone then (fault, t) else (ok (false, r), u))
  left-if true t u = refl
  left-if false t u = refl

  -- A receive that fails makes its connection dead and starts a sweep. Where each stored pointer leads to
  -- a connection, `msgRecv` then ends in undefined behaviour exactly if an odd number of dead
  -- connections stands at the end of the storage; otherwise its loop ends, and the sweep has taken
  -- out each dead connection whose predecessor has stayed, and nothing else.
  pub msg_recv-lost :
      get_elem? s.conns a ≡ some c
      → AllLead lost.conns s.conn_storage
      → msg_recv P none a r s ≡ (
          if odd_tail lost.conns s.conn_storage
          then (fault, lost)
          else (ok (false, r), record lost { conn_storage = kept lost.conns false s.conn_storage }))
  msg_recv-lost e all =
      msg_recv-sweeps e
      ∙ ap left (free_empty_socket-kept lost all)
      ∙ left-if (odd_tail lost.conns s.conn_storage) lost
          (record lost { conn_storage = kept lost.conns false s.conn_storage })
