-- ===== src/Server/Messages/Login.antt =====
-- What a login message does, by what it names.
use inertia_trader.Common.{
  ℕ, ◌≡◌, refl, ap, ◌∙◌, true, false, none, some, List, Text, get_elem?, text_eq, is_empty, codes,
  ◌++◌, ◌+◌, ◌%◌, get_elem?-set-some, take, Bool-cases, Option-cases, inl, inr,
}
use inertia_trader.Common.Decimal.{nat_to_string}
use inertia_trader.Common.Map.{lookup, text_key}
use inertia_trader.Common.Action.{Outcome, ok, fault, gets, catching}
use inertia_trader.Common.Action.Laws.{>>=-ok, or_fault->>=, catching-ok, catching-end}
use inertia_trader.Platform.{Platform}
use inertia_trader.Types.{UserData}
use inertia_trader.Funclib.Split.{split, bar}
use inertia_trader.Connection.{Connection, set_login_flag}
use inertia_trader.Server.{Server, write_connection}
use inertia_trader.Server.Frames.{send_on-alive}
use inertia_trader.Server.Messages.{verify_login, log_in, send_number, mark_login, login_msg_handle}

module _ {N : Type 0} (P : Platform N) where
  -- Where users are listed, a user name that is not reads past the end of the map.
  pub verify_login-unknown :
      (res : List Text) (a : ℕ) (s : Server N) (name : Text)
      → is_empty s.user_list ≡ false
      → get_elem? res 1 ≡ some name
      → lookup name s.user_list ≡ none
      → verify_login P res a s ≡ (fault, s)
  unfolding verify_login
  verify_login-unknown res a s name listed e unknown =
      rw (verify_login, >>=-ok (gets (λ s. s)) _ s s s refl, listed, or_fault->>= _ s e, unknown)

  send_number-alive :
      (a : ℕ) (head : Text) (s : Server N) (c : Connection)
      → get_elem? s.conns a ≡ some c
      → (s' : Server N) × (c' : Connection) × (send_number P a head s ≡ (ok tt, s'))
        × (get_elem? s'.conns a ≡ some c')
  unfolding send_number
  send_number-alive a head s c e =
      send_on-alive P a (head ++ (nat_to_string (P.rand s.draws % 100000) ++ codes "\n"))
        (record s { draws = s.draws + 1 }) c e

  -- The connection of a user that is logged in carries the flag and the name, also if the client is
  -- gone when the two answers are sent.
  log_in-flag :
      (a : ℕ) (s : Server N) (name : Text) (c : Connection)
      → get_elem? s.conns a ≡ some c
      → ((log_in P a name s).0 ≡ ok tt)
        × (c' : Connection) × (get_elem? (log_in P a name s).1.conns a ≡ some c')
        × (c'.login_flag ≡ true)
        × (c'.username ≡ name)
  unfolding log_in mark_login set_login_flag
  log_in-flag a s name c e =
      let (s1, c1, e1, f1) = send_number-alive a (codes "login|") s c e in
      let (s2, c2, e2, f2) = send_number-alive a (codes "1234|") s1 c1 f1 in
      let c3 : Connection = record (set_login_flag true c2) { username = name } in
      let whole : log_in P a name s ≡ (ok tt, write_connection a c3 s2) = rw (
        log_in,
        >>=-ok (send_number P a (codes "login|")) _ s s1 tt e1,
        >>=-ok (send_number P a (codes "1234|")) _ s1 s2 tt e2,
        mark_login,
        or_fault->>= _ s2 f2,
      ) in
      (
        ap (λ r. r.0) whole,
        c3,
        ap (λ r. get_elem? r.1.conns a) whole ∙ get_elem?-set-some s2.conns a c3 c2 f2,
        refl,
        refl,
      )

  -- The right password of a listed user logs the connection in: its flag is set, and it carries the
  -- name of the user.
  pub verify_login-password :
      (res : List Text) (a : ℕ) (s : Server N) (name password : Text) (ud : UserData N)
      (c : Connection)
      → is_empty s.user_list ≡ false
      → get_elem? res 1 ≡ some name
      → get_elem? res 2 ≡ some password
      → lookup name s.user_list ≡ some ud
      → text_eq ud.password password ≡ true
      → get_elem? s.conns a ≡ some c
      → ((verify_login P res a s).0 ≡ ok tt)
        × (c' : Connection) × (get_elem? (verify_login P res a s).1.conns a ≡ some c')
        × (c'.login_flag ≡ true)
        × (c'.username ≡ name)
  unfolding verify_login
  verify_login-password res a s name password ud c listed e1 e2 known same alive =
      let logs : verify_login P res a s ≡ log_in P a name s = rw (
        verify_login,
        >>=-ok (gets (λ s. s)) _ s s s refl,
        listed,
        or_fault->>= _ s e1,
        or_fault->>= _ s known,
        or_fault->>= _ s e2,
        same,
      ) in
      let (done, c', here, flag, named) = log_in-flag a s name c alive in
      (ap (λ r. r.0) logs ∙ done, c', ap (λ r. get_elem? r.1.conns a) logs ∙ here, flag, named)

  -- A wrong password of a listed user changes nothing and gets no answer.
  pub verify_login-wrong_password :
      (res : List Text) (a : ℕ) (s : Server N) (name password : Text) (ud : UserData N)
      → is_empty s.user_list ≡ false
      → get_elem? res 1 ≡ some name
      → get_elem? res 2 ≡ some password
      → lookup name s.user_list ≡ some ud
      → text_eq ud.password password ≡ false
      → verify_login P res a s ≡ (ok tt, s)
  unfolding verify_login
  verify_login-wrong_password res a s name password ud listed e1 e2 known other = rw (
    verify_login,
    >>=-ok (gets (λ s. s)) _ s s s refl,
    listed,
    or_fault->>= _ s e1,
    or_fault->>= _ s known,
    or_fault->>= _ s e2,
    other,
  )

  -- How a login ends, by the user that it names and the password that it gives.
  pub data LoginEnds (name password : Text) (a : ℕ) (s : Server N)
      (q : Outcome (Unit {0}) × Server N) : Type 0 where
    unknown : lookup name s.user_list ≡ none → q ≡ (fault, s) → LoginEnds name password a s q
    refused :
        (ud : UserData N)
        → lookup name s.user_list ≡ some ud
        → text_eq ud.password password ≡ false
        → q ≡ (ok tt, s)
        → LoginEnds name password a s q
    accepted :
        (ud : UserData N) (c : Connection)
        → lookup name s.user_list ≡ some ud
        → text_eq ud.password password ≡ true
        → q.0 ≡ ok tt
        → get_elem? q.1.conns a ≡ some c
        → c.login_flag ≡ true
        → c.username ≡ name
        → LoginEnds name password a s q

  -- A login message with a name and a password, while users are listed: the right password of a
  -- listed user sets the flag and the name of the connection, a wrong one changes nothing and gets
  -- no answer, and a name that is not listed ends in undefined behaviour.
  pub login_msg_handle-LoginEnds :
      (msg : Text) (a : ℕ) (s : Server N) (name password : Text) (c : Connection)
      → text_eq (take 4 msg) (codes "1234") ≡ true
      → is_empty s.user_list ≡ false
      → get_elem? (split msg bar) 1 ≡ some name
      → get_elem? (split msg bar) 2 ≡ some password
      → get_elem? s.conns a ≡ some c
      → LoginEnds name password a s (login_msg_handle P msg a s)
  unfolding login_msg_handle
  login_msg_handle-LoginEnds msg a s name password c login listed e1 e2 alive =
      let res = split msg bar in
      let verifies : login_msg_handle P msg a s ≡ catching (verify_login P res a) s =
        rw (login_msg_handle, login) in
      rw verifies (elim (Option-cases (lookup name s.user_list)) [
        | inl missing ↦ LoginEnds.unknown missing (
            catching-end (verify_login P res a) s s
              (verify_login-unknown res a s name listed e1 missing))
        | inr (ud, known) ↦ elim (Bool-cases (text_eq ud.password password)) [
          | inl same ↦
              let (done, c', here, flag, named) =
                verify_login-password res a s name password ud c listed e1 e2 known same alive in
              let s' = (verify_login P res a s).1 in
              let e : catching (verify_login P res a) s ≡ (ok tt, s') =
                catching-ok (verify_login P res a) s s' (λ i. (done i, s')) in
              LoginEnds.accepted ud c' known same (ap (λ q. q.0) e)
                (ap (λ q. get_elem? q.1.conns a) e ∙ here) flag named
          | inr other ↦ LoginEnds.refused ud known other (
              catching-ok (verify_login P res a) s s
                (verify_login-wrong_password res a s name password ud listed e1 e2 known other))
        ]
      ])
