-- ===== src/Server/Frames.antt =====
-- What `getConnObject` and `sendToClient` give for a connection that is known.
use inertia_trader.Common.{
  ℕ, ◌≡◌, Option, some, [], ◌∷◌, ◌++◌, Text, codes, get_elem?, set, refl, get_elem?-set-some,
}
use inertia_trader.Common.Int.{ℤ}
use inertia_trader.Common.Map.{lookup, int_key}
use inertia_trader.Common.Action.{ok}
use inertia_trader.Common.Action.Laws.{>>=-ok, or_fault-some}
use inertia_trader.Platform.{Platform}
use inertia_trader.Connection.{Connection, sendto}
use inertia_trader.Server.{Server, send_on, send_to_client, get_conn_object, connection_at}

module _ {N : Type 0} where
  pub get_conn_object-found :
      (conn : ℤ) (p : Option ℕ) (s : Server N)
      → lookup conn s.conn_storage ≡ some p
      → get_conn_object conn s ≡ (ok p, s)
  unfolding get_conn_object
  get_conn_object-found conn p s e = rw (e, get_conn_object)

module _ {N : Type 0} (P : Platform N) where
  -- The server after a send on a connection.
  abbrev pub sent_on : ℕ → Text → Connection → Server N → Server N
  sent_on a text c s = record s {
    conns = set s.conns a (sendto (P.delivers s.wire c.connection_socket text) c);
    wire = s.wire ++ (c.connection_socket, text) ∷ [];
  }

  send_on-found :
      (a : ℕ) (text : Text) (c : Connection) (s : Server N)
      → get_elem? s.conns a ≡ some c
      → send_on P a text s ≡ (ok tt, sent_on a text c s)
  unfolding send_on
  send_on-found a text c s e =
      rw (send_on, >>=-ok (connection_at a) _ s s c (or_fault-some (get_elem? s.conns a) c s e))
        refl

  -- A message to a connection that is stored and alive reaches its socket, with a line feed.
  pub send_to_client-found :
      (conn : ℤ) (a : ℕ) (c : Connection) (text : Text) (s : Server N)
      → lookup conn s.conn_storage ≡ some (some a)
      → get_elem? s.conns a ≡ some c
      → send_to_client P conn text s ≡ (ok tt, sent_on a (text ++ codes "\n") c s)
  unfolding send_to_client
  send_to_client-found conn a c text s e f = rw (
    send_to_client,
    >>=-ok (get_conn_object conn) _ s s (some a) (get_conn_object-found conn (some a) s e),
    send_on-found a (text ++ codes "\n") c s f,
  )

  -- A connection that is sent to is still there, whether or not the send succeeds.
  pub send_on-alive :
      (a : ℕ) (text : Text) (s : Server N) (c : Connection)
      → get_elem? s.conns a ≡ some c
      → (s' : Server N) × (c' : Connection) × (send_on P a text s ≡ (ok tt, s'))
        × (get_elem? s'.conns a ≡ some c')
  send_on-alive a text s c e =
      let c' = sendto (P.delivers s.wire c.connection_socket text) c in
      (sent_on a text c s, c', send_on-found a text c s e, get_elem?-set-some s.conns a c' c e)
