-- ===== src/MarketMaker/Receives.antt =====
-- What the market maker counts behind a receive, and behind the reconnection when one fails.
use inertia_trader.Common.{
  ℕ, ◌+◌, ◌≡◌, refl, ◌∙◌, Bool, true, false, Option, none, some, zero, suc, Text, ltb,
  if◌then◌else◌, length, arith,
}
use inertia_trader.Common.Floats.{Floats}
use inertia_trader.Common.Action.{Outcome, ok, throws, fault}
use inertia_trader.Funclib.InitParser.{read_line}
use inertia_trader.MarketMaker.Reconnect.{socketini-cases}
use inertia_trader.Funclib.Split.{c_str}
use inertia_trader.MarketMaker.{
  Client, ConnectCalls, msg_handler, recv_msg, allow_conn, set_conn_status, socketini,
  after_attempt, if_ok, connected,
}
use inertia_trader.MarketMaker.Replies.{Said}
use inertia_trader.MarketMaker.Counting.{Counts, counts, msg_handler-Said}

-- What the reconnection returns, if anything, has these counts.
abbrev Reconnected : {N : Type 0} → Counts → Option (ℕ × Outcome (Unit {0}) × Client N) → Type 0
Reconnected k none = Unit
Reconnected k (some (n, r, c)) = counts c ≡ k

if_ok-cases :
    {A : Type 0} (P : A → Type 0) (r : Outcome (Unit {0})) (a b : A) → P a → P b → P (if_ok r a b)
if_ok-cases P (ok _) a b pa pb = pa
if_ok-cases P throws a b pa pb = pb
if_ok-cases P fault a b pa pb = pb

after_attempt-cases :
    {A : Type 0} (P : A → Type 0) (up first last : Bool) (a b c d : A)
    → P a
    → P b
    → P c
    → P d
    → P (after_attempt up first last a b c d)
after_attempt-cases P true first last a b c d pa pb pc pd = pa
after_attempt-cases P false true last a b c d pa pb pc pd = pb
after_attempt-cases P false false true a b c d pa pb pc pd = pc
after_attempt-cases P false false false a b c d pa pb pc pd = pd

module _ {N : Type 0} where
  connected-counts : (calls : ConnectCalls) (c : Client N) → counts (connected calls c) ≡ counts c
  connected-counts calls c = ground arith

  socketini-counts : (calls : ConnectCalls) (c : Client N) → counts (socketini calls c).1 ≡ counts c
  socketini-counts calls c =
      socketini-cases (λ q. counts q.1 ≡ counts c) calls c
        (connected-counts calls (record c { ip = (read_line calls.settings c.ip).1 }))
        (λ r h bad. refl)

  allow_conn-counts :
      (fuel : ℕ) (calls : ℕ → ConnectCalls) (n : ℕ) (c : Client N) (k : Counts)
      → counts c ≡ k
      → Reconnected k (allow_conn fuel calls n c)
  unfolding allow_conn
  allow_conn-counts zero calls n c k e = tt
  allow_conn-counts (suc fuel) calls n c k e =
      let (r, c1) = socketini (calls n) c in
      let same : counts c1 ≡ k = socketini-counts (calls n) c ∙ e in
      if_ok-cases (Reconnected k) r _ _
        (after_attempt-cases (Reconnected k) c1.conn_status c1.first_conn_flag
          (ltb 3 (c1.conn_calculate + 1)) _ _ _ _ same same same
          (allow_conn-counts fuel calls (n + 1)
            (record c1 { conn_calculate = c1.conn_calculate + 1 }) k same))
        same

module _ {N : Type 0} (F : Floats N) where
  -- What the server says, whatever piece of memory comes with it, and a receive that fails.
  pub recv_msg-counts :
      (bytes : Text) (calls : ℕ → ConnectCalls) (fuel : ℕ) (c : Client N)
      → Said (c_str bytes)
      → counts (recv_msg F (some bytes) calls fuel c).1 ≡ counts c
  unfolding recv_msg
  recv_msg-counts bytes calls fuel c said = fitting (ltb (length bytes) 1024)
    where
      fitting :
          (b : Bool) → counts (if b then msg_handler F (c_str bytes) c else (fault, c)).1 ≡ counts c
      fitting true = (msg_handler-Said F (counts c) (c_str bytes) said).keeps c refl
      fitting false = refl

  pub recv_msg-lost :
      (calls : ℕ → ConnectCalls) (fuel : ℕ) (c : Client N)
      → counts (recv_msg F none calls fuel c).1 ≡ counts c
  unfolding recv_msg
  recv_msg-lost calls fuel c =
      again (allow_conn fuel calls 0 (set_conn_status false c))
        (allow_conn-counts fuel calls 0 (set_conn_status false c) (counts c) refl)
    where
      again :
          (r : Option (ℕ × Outcome (Unit {0}) × Client N))
          → Reconnected (counts c) r
          → counts
              (elim r as (λ _. Outcome (Unit {0}) × Client N) [
                | none ↦ (ok tt, set_conn_status false c)
                | some (n, r, c') ↦ (r, c')
              ]).1
            ≡ counts c
      again none _ = refl
      again (some (n, r, c')) e = e
