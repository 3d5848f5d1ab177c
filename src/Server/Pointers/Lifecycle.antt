-- ===== src/Server/Pointers/Lifecycle.antt =====
-- Rounds of the threads of the server, and answers of the trader, one after the other, in any order.
use inertia_trader.Common.{
  ℕ, zero, suc, ◌<◌, ◌≡◌, refl, ap, sym, subst, Bool-cases, inl, inr, Option, none, some, List, [],
  ◌∷◌, Text, length, get_elem?, arith,
}
use inertia_trader.Common.Int.{ℤ, int_eq}
use inertia_trader.Common.Map.{lookup, int_key}
use inertia_trader.Common.Action.{ok}
use inertia_trader.Platform.{Platform}
use inertia_trader.Server.{Server, send_to_client}
use inertia_trader.Server.Frames.{send_to_client-found}
use inertia_trader.Server.Sockets.{Storage, accept_conn, heartbeat}
use inertia_trader.Server.Messages.{Receiver, msg_recv}
use inertia_trader.Server.Pointers.{AllBelow, IsSound, Sound}
use inertia_trader.Server.Pointers.Sending.{
  Sound-accept_conn, Sound-heartbeat, Sound-send_to_client,
}
use inertia_trader.Server.Pointers.Receiving.{Sound-msg_recv}

-- `acceptConn` with a socket or none; `heartbeat` and `msgRecv` of a connection; and `sendToClient`,
-- which the threads of the trader call.
pub data ServerRound : Type 0 where
  accept_round : Option ℕ → ServerRound
  heartbeat_round : ℕ → ServerRound
  receive_round : Option Text → ℕ → Receiver → ServerRound
  answer_round : ℤ → Text → ServerRound

module _ {N : Type 0} (P : Platform N) where
  unfoldable pub after_server_round : ServerRound → Server N → Server N
  after_server_round (ServerRound.accept_round socket) s = (accept_conn P socket s).1
  after_server_round (ServerRound.heartbeat_round a) s = (heartbeat P a s).1
  after_server_round (ServerRound.receive_round received a r) s = (msg_recv P received a r s).1
  after_server_round (ServerRound.answer_round conn msg) s = (send_to_client P conn msg s).1

  pub data Serves (from : Server N) : Server N → Type 0 where
    start : Serves from from
    later : {s : Server N} (r : ServerRound) → Serves from s → Serves from (after_server_round r s)

AllBelow-lookup :
    (n : ℕ) (k : ℤ) (a : ℕ) (m : Storage) → AllBelow n m → lookup k m ≡ some (some a) → a < n
AllBelow-lookup n k a [] all e = cc
AllBelow-lookup n k a ((j, none) ∷ m) all e = elim (Bool-cases (int_eq j k)) [
  | inl hit ↦ cc
  | inr other ↦ AllBelow-lookup n k a m all (ground (arith, e))
]
AllBelow-lookup n k a ((j, some b) ∷ m) (low, all) e = elim (Bool-cases (int_eq j k)) [
  | inl hit ↦ ground arith
  | inr other ↦ AllBelow-lookup n k a m all (ground (arith, e))
]

get_elem?-below :
    {A : Type 0} (xs : List A) (i : ℕ) → i < length xs → (x : A) × (get_elem? xs i ≡ some x)
get_elem?-below [] i h = absurd (omega arith)
get_elem?-below (x ∷ xs) zero h = (x, refl)
get_elem?-below (x ∷ xs) (suc i) h = get_elem?-below xs i (omega arith)

module _ {N : Type 0} (P : Platform N) where
  Serves-IsSound : (from s : Server N) → Serves P from s → IsSound from → IsSound s
  unfolding after_server_round Sound
  Serves-IsSound from s Serves.start h = h
  Serves-IsSound from _ (Serves.later {s} (ServerRound.accept_round socket) run) h =
      Sound-accept_conn P socket s (Serves-IsSound from s run h)
  Serves-IsSound from _ (Serves.later {s} (ServerRound.heartbeat_round a) run) h =
      Sound-heartbeat P a s (Serves-IsSound from s run h)
  Serves-IsSound from _ (Serves.later {s} (ServerRound.receive_round received a r) run) h =
      Sound-msg_recv P received a r s (Serves-IsSound from s run h)
  Serves-IsSound from _ (Serves.later {s} (ServerRound.answer_round conn msg) run) h =
      Sound-send_to_client P conn msg s (Serves-IsSound from s run h)

  -- From a server with no connection stored, over any rounds, however each of them ends: a text to an
  -- id that is stored with a pointer that is not null ends well, since the pointer does not dangle.
  pub Serves-send_to_client :
      (from s : Server N) (conn : ℤ) (a : ℕ) (msg : Text)
      → from.conn_storage ≡ []
      → Serves P from s
      → lookup conn s.conn_storage ≡ some (some a)
      → (send_to_client P conn msg s).0 ≡ ok tt
  Serves-send_to_client from s conn a msg new run e =
      let sound = Serves-IsSound from s run (subst (AllBelow (length from.conns)) (sym new) tt) in
      let (c, alive) =
        get_elem?-below s.conns a
          (AllBelow-lookup (length s.conns) conn a s.conn_storage sound e) in
      ap (λ q. q.0) (send_to_client-found P conn a c msg s e alive)
