-- ===== src/Server/Sockets.antt =====
-- `Server::freeEmptysocket`, `acceptConn`, `heartbeat`, `socketini` and the constructor.
pub mod Storage
pub mod Sweeping
use inertia_trader.Common.{
  ℕ, zero, suc, ◌+◌, ◌%◌, Bool, true, false, not, ◌&&◌, Option, none, some, List, [], ◌∷◌, ◌++◌,
  Text, codes, get_elem?, set, if◌then◌else◌, length,
}
use inertia_trader.Common.Int.{ℤ, pos}
use inertia_trader.Common.Decimal.{stoi}
use inertia_trader.Common.Map.{Map, lookup, insert, int_key}
use inertia_trader.Common.Action.{
  Action, Outcome, ok, fault, throws, ◌>>=◌, ◌>>◌, pure, or_fault, or_throw, gets, modify, zoom,
  when,
}
use inertia_trader.Platform.{Platform}
use inertia_trader.Funclib.InitParser.{new_parser, read_line}
use inertia_trader.Funclib.InitParser.{setting}
use inertia_trader.Connection.{Connection, new_connection}
use inertia_trader.Server.{
  Server, set_conn_status, send_on, connection_at, essential_data_initialise, blank_server,
}

-- `it->second->getRecvStatus()`; `none` for a null or dangling pointer.
unfoldable pub receiving : List Connection → Option ℕ → Option Bool
receiving cs none = none
receiving cs (some a) = elim (get_elem? cs a) [ none ↦ none | some c ↦ some c.recv_status ]

abbrev pub Storage : Type 0
Storage = Map ℤ (Option ℕ)

abbrev pub keep_entry : ℤ × Option ℕ → Outcome Storage → Outcome Storage
keep_entry e (ok m) = ok (e ∷ m)
keep_entry e throws = throws
keep_entry e fault = fault

-- After `erase` the iterator is `end()`, and the `++it` of the loop is undefined.
abbrev pub sweep_last : Option Bool → ℤ × Option ℕ → Outcome Storage
sweep_last none e = fault
sweep_last (some true) e = ok (e ∷ [])
sweep_last (some false) e = fault

-- After `erase` the iterator stands on the next entry, and `++it` passes over that one.
abbrev pub sweep_next :
    Option Bool → ℤ × Option ℕ → ℤ × Option ℕ → Outcome Storage → Outcome Storage → Outcome Storage
sweep_next none e next from_next behind_next = fault
sweep_next (some true) e next from_next behind_next = keep_entry e from_next
sweep_next (some false) e next from_next behind_next = keep_entry next behind_next

-- The loop over `connStorage_`, from an entry on.
unfoldable pub sweep : List Connection → Storage → Outcome Storage
sweep cs [] = ok []
sweep cs (e ∷ []) = sweep_last (receiving cs e.1) e
sweep cs (e ∷ next ∷ m) = sweep_next (receiving cs e.1) e next (sweep cs (next ∷ m)) (sweep cs m)

abbrev pub swept : {N : Type 0} → Outcome Storage → Action (Server N) (Unit {0})
swept (ok m) s = (ok tt, record s { conn_storage = m })
swept throws s = (throws, s)
swept fault s = (fault, s)

unfoldable pub free_empty_socket : {N : Type 0} → Action (Server N) (Unit {0})
free_empty_socket s = swept (sweep s.conns s.conn_storage) s

-- The results of `socket`, `bind` and `listen`.
pub record SocketCalls : Type 0 where
  pub socket_ok : Bool
  pub bind_ok : Bool
  pub listen_ok : Bool

module _ {N : Type 0} (P : Platform N) where
  -- One round of `acceptConn`: the socket that `accept` gave, if it gave one. The new connection
  -- gets the next address, and an id that `insert` enters only if it is free. Returns the address
  -- that the two new threads work on.
  unfoldable pub accept_conn : Option ℕ → Action (Server N) (Option ℕ)
  accept_conn none = pure none
  accept_conn (some socket) = do
    set_conn_status true
    s ← gets (λ s. s)
    let space = P.rand s.draws % 99
    let address = length s.conns
    modify (λ s. record s {
      draws = s.draws + 1;
      conns = s.conns ++ new_connection socket (pos space) (P.unset_flag address) ∷ [];
      conn_storage = insert (pos space) (some address) s.conn_storage;
    })
    pure (some address)

  -- One round of `heartbeat`, and whether the loop goes on.
  unfoldable pub heartbeat : ℕ → Action (Server N) Bool
  heartbeat a = do
    send_on P a (codes "<3&\n")
    c ← connection_at a
    if c.recv_status then pure true else (do free_empty_socket; pure false)

  -- The settings file is a parameter. The port that it names must be a number.
  unfoldable pub socketini : Option (List Text) → Text → SocketCalls → Action (Server N) Bool
  socketini file chosen calls = do
    ip ← (λ s.
        let (r, p) = read_line file (new_parser chosen) in
        elim r [ ok _ ↦ (ok p, s) | throws ↦ (throws, s) | fault ↦ (fault, s) ])
    port ← or_throw (stoi (setting (codes "port") ip))
    if calls.socket_ok && (calls.bind_ok && calls.listen_ok)
        then (do set_conn_status true; pure true)
        else pure false

  -- The constructor, from a blank server on; the result is whether the accepting thread starts.
  unfoldable pub new_server : Option (List Text) → Text → SocketCalls → Action (Server N) Bool
  new_server file chosen calls = do
    essential_data_initialise P
    s ← gets (λ s. s)
    up ← (if s.db_status then socketini file chosen calls else pure false)
    if up then pure true else (do set_conn_status false; pure false)
