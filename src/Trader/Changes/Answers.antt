-- ===== src/Trader/Changes/Answers.antt =====
-- The answer to a cancellation or a change, and what the database is told behind it.
use inertia_trader.Common.{
  ℕ, ◌≡◌, refl, ap, Option, ◌∙◌, none, some, List, [], ◌∷◌, ◌++◌, Text, get_elem?, codes,
}
use inertia_trader.Common.Int.{ℤ}
use inertia_trader.Common.Decimal.{stoi}
use inertia_trader.Common.Map.{lookup, insert, int_key}
use inertia_trader.Common.Action.{Action, Outcome, ok, fault, or_fault, pure, ◌>>=◌, ◌>>◌}
use inertia_trader.Common.Action.Laws.{>>=-ok, >>=-same, or_fault->>=, or_throw->>=}
use inertia_trader.Platform.{Platform}
use inertia_trader.Connection.{Connection}
use inertia_trader.Database.{mysql_query}
use inertia_trader.Server.{Server, send_on, on_history, send_to_client, get_conn_object}
use inertia_trader.Server.Frames.{sent_on, send_to_client-found, get_conn_object-found}
use inertia_trader.Trader.{Trader, on_server}
use inertia_trader.Trader.Changes.{reply}

-- The NID and the connection that the fields of a message name.
pub record Names (res : List Text) (nid : Text) (conn : ℤ) : Type 0 where
  pub conn_text : Text
  pub has_nid : get_elem? res 1 ≡ some nid
  pub has_conn : get_elem? res 7 ≡ some conn_text
  pub number : stoi conn_text ≡ some conn

module _ {N : Type 0} (P : Platform N) where
  -- The trader once the text went to the socket of the connection and the command to the database.
  abbrev pub served : ℕ → Connection → Text → Text → Trader N → Trader N
  served at c text command t = record t {
    sr = record (sent_on P at text c t.sr) { history = t.sr.history ++ command ∷ [] };
  }

  -- The trader once the connection was looked up that is not there.
  abbrev pub looked_up : ℤ → Trader N → Trader N
  looked_up conn t = record t {
    sr = record (t.sr) { conn_storage = insert conn none t.sr.conn_storage };
  }

  -- What goes on behind the answer.
  abbrev pub answer_and_tell : List Text → Text → Text → Action (Trader N) (Unit {0})
  answer_and_tell res text command =
      reply P res text >> (on_server (on_history (mysql_query P command)) >> pure tt)

  reply-named :
      (res : List Text) (nid : Text) (conn : ℤ) (text : Text) (t : Trader N)
      → Names res nid conn
      → reply P res text t ≡ on_server (send_to_client P conn (nid ++ text)) t
  unfolding reply
  reply-named res nid conn text t n =
      rw (reply, or_fault->>= _ t n.has_conn, or_throw->>= _ t n.number, or_fault->>= _ t n.has_nid)
        refl

  answer_and_tell-known :
      (res : List Text) (nid : Text) (conn : ℤ) (text command : Text) (t : Trader N) (at : ℕ)
      (c : Connection)
      → Names res nid conn
      → lookup conn t.sr.conn_storage ≡ some (some at)
      → get_elem? t.sr.conns at ≡ some c
      → answer_and_tell res text command t
        ≡ (ok tt, served at c ((nid ++ text) ++ codes "\n") command t)
  unfolding mysql_query
  answer_and_tell-known res nid conn text command t at c n stored alive =
      let sent : Trader N = record t { sr = sent_on P at ((nid ++ text) ++ codes "\n") c t.sr } in
      >>=-ok (reply P res text) (λ _. on_server (on_history (mysql_query P command)) >> pure tt) t
        sent tt
        (reply-named res nid conn text t n
          ∙ ap (λ q. (q.0, record t { sr = q.1 }))
              (send_to_client-found P conn at c (nid ++ text) t.sr stored alive))

  send-missing :
      (conn : ℤ) (text : Text) (s : Server N)
      → lookup conn s.conn_storage ≡ none
      → send_to_client P conn text s
        ≡ (fault, record s { conn_storage = insert conn none s.conn_storage })
  unfolding send_to_client get_conn_object
  send-missing conn text s missing =
      let s' : Server N = record s { conn_storage = insert conn none s.conn_storage } in
      >>=-ok (get_conn_object conn) (λ p. or_fault p >>= λ a. send_on P a (text ++ codes "\n")) s s'
        none (ap (λ o. elim o [ none ↦ (ok none, s') | some p ↦ (ok p, s) ]) missing)

  send-null :
      (conn : ℤ) (text : Text) (s : Server N)
      → lookup conn s.conn_storage ≡ some none
      → send_to_client P conn text s ≡ (fault, s)
  unfolding send_to_client
  send-null conn text s e =
      >>=-ok (get_conn_object conn) (λ p. or_fault p >>= λ a. send_on P a (text ++ codes "\n")) s s
        none (get_conn_object-found conn none s e)

  send-dangling :
      (conn : ℤ) (text : Text) (s : Server N) (at : ℕ)
      → lookup conn s.conn_storage ≡ some (some at)
      → get_elem? s.conns at ≡ none
      → send_to_client P conn text s ≡ (fault, s)
  unfolding send_to_client send_on
  send-dangling conn text s at e gone =
      >>=-ok (get_conn_object conn) (λ p. or_fault p >>= λ a. send_on P a (text ++ codes "\n")) s s
        (some at) (get_conn_object-found conn (some at) s e)
      ∙ rw (send_on, gone) (ap (λ (o : Option Connection). (fault, (or_fault o s).1)) gone)

  answer_and_tell-fault :
      (res : List Text) (nid : Text) (conn : ℤ) (text command : Text) (t : Trader N) (s' : Server N)
      → Names res nid conn
      → send_to_client P conn (nid ++ text) t.sr ≡ (fault, s')
      → answer_and_tell res text command t ≡ (fault, record t { sr = s' })
  answer_and_tell-fault res nid conn text command t s' n e =
      >>=-same (reply P res text) (λ u. (fault, record t { sr = s' }))
        (λ _. on_server (on_history (mysql_query P command)) >> pure tt) t
        (reply-named res nid conn text t n ∙ ap (λ q. (q.0, record t { sr = q.1 })) e)

  -- What a call gives from here, by the connection that it answers to: where the connection is stored
  -- and alive, the text goes to its socket and then the command to the database; where its id is not
  -- stored, or its pointer is null or dangles, behaviour is undefined, and the database is told nothing.
  abbrev pub heard_at :
      ℕ → Text → Text → Trader N → Option Connection → Outcome (Unit {0}) × Trader N
  heard_at at text command t none = (fault, t)
  heard_at at text command t (some c) = (ok tt, served at c text command t)

  abbrev pub heard_by :
      ℤ → Text → Text → Trader N → Option (Option ℕ) → Outcome (Unit {0}) × Trader N
  heard_by conn text command t none = (fault, looked_up conn t)
  heard_by conn text command t (some none) = (fault, t)
  heard_by conn text command t (some (some at)) =
      heard_at at text command t (get_elem? t.sr.conns at)

  abbrev pub heard : ℤ → Text → Text → Trader N → Outcome (Unit {0}) × Trader N
  heard conn text command t = heard_by conn text command t (lookup conn t.sr.conn_storage)

  pub answer_and_tell-heard :
      (res : List Text) (nid : Text) (conn : ℤ) (text command : Text) (t : Trader N)
      → Names res nid conn
      → answer_and_tell res text command t ≡ heard conn ((nid ++ text) ++ codes "\n") command t
  answer_and_tell-heard res nid conn text command t n =
      by_pointer (lookup conn t.sr.conn_storage) refl
    where
      by_connection :
          (at : ℕ) (o : Option Connection)
          → lookup conn t.sr.conn_storage ≡ some (some at)
          → get_elem? t.sr.conns at ≡ o
          → answer_and_tell res text command t
            ≡ heard_at at ((nid ++ text) ++ codes "\n") command t o
      by_connection at none e gone =
          answer_and_tell-fault res nid conn text command t t.sr n
            (send-dangling conn (nid ++ text) t.sr at e gone)
      by_connection at (some c) e here =
          answer_and_tell-known res nid conn text command t at c n e here

      by_pointer :
          (p : Option (Option ℕ))
          → lookup conn t.sr.conn_storage ≡ p
          → answer_and_tell res text command t
            ≡ heard_by conn ((nid ++ text) ++ codes "\n") command t p
      by_pointer none e =
          answer_and_tell-fault res nid conn text command t
            (record (t.sr) { conn_storage = insert conn none t.sr.conn_storage }) n
            (send-missing conn (nid ++ text) t.sr e)
      by_pointer (some none) e =
          answer_and_tell-fault res nid conn text command t t.sr n
            (send-null conn (nid ++ text) t.sr e)
      by_pointer (some (some at)) e = by_connection at (get_elem? t.sr.conns at) e refl
