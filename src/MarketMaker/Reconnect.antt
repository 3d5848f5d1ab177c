-- ===== src/MarketMaker/Reconnect.antt =====
-- How long the market maker tries to connect, and how that ends.
use inertia_trader.Common.{
  ℕ, ◌+◌, ◌≤◌, ◌≡◌, refl, ◌⊎◌, inl, inr, true, Option, none, some, List, Text, codes, ◌≢◌,
}
use inertia_trader.Common.Action.{Outcome, ok, throws, fault, ◌>>=◌, or_throw, modify}
use inertia_trader.Common.Int.{ℤ}
use inertia_trader.Common.Decimal.{stoi}
use inertia_trader.Funclib.InitParser.{InitParser, read_line, setting}
use inertia_trader.MarketMaker.{Client, ConnectCalls, socketini, connected}

-- The settings cannot be read, or name a port that is no number.
abbrev pub Unreadable : Option (List Text) → InitParser → Type 0
Unreadable file ip =
    ((read_line file ip).0 ≢ ok tt) ⊎ (stoi (setting (codes "port") (read_line file ip).1) ≡ none)

module _ {N : Type 0} where
  -- What a finished `allowConn` leaves: a connection, with the counter reset, or the exit flag.
  abbrev pub Settled : Client N → Type 0
  Settled c = ((c.conn_status ≡ true) × (c.conn_calculate ≡ 0)) ⊎ (c.exit_flag ≡ true)

  -- How it ended: settled, or with the exception or the undefined behaviour of its last attempt, whose
  -- settings were not readable.
  abbrev pub Ended : (ℕ → ConnectCalls) → ℕ → Outcome (Unit {0}) → Client N → Type 0
  Ended calls tries r c =
      ((r ≡ ok tt) × Settled c)
      ⊎ ((k : ℕ) × (ip : InitParser) × (tries ≡ k + 1)
          × (r ≢ ok tt)
          × Unreadable (calls k).settings ip)

  -- An attempt, by what the settings say.
  pub socketini-cases :
      (Q : Outcome (Unit {0}) × Client N → Type 0) (calls : ConnectCalls) (c : Client N)
      → let q = read_line calls.settings c.ip in
        let c1 : Client N = record c { ip = q.1 } in
        Q (ok tt, connected calls c1)
        → ((r : Outcome (Unit {0})) → r ≢ ok tt → Unreadable calls.settings c.ip → Q (r, c1))
        → Q (socketini calls c)
  unfolding socketini
  socketini-cases Q calls c done ended =
      let q = read_line calls.settings c.ip in
      let c1 : Client N = record c { ip = q.1 } in
      reading q.0 (stoi (setting (codes "port") q.1)) done (λ r h failed. ended r h (inl failed))
        (λ missing. ended throws (λ e. cc) (inr missing))
    where
      reading :
          {c1 : Client N} (o : Outcome (Unit {0})) (port : Option ℤ)
          → Q (ok tt, connected calls c1)
          → ((r : Outcome (Unit {0})) → r ≢ ok tt → o ≢ ok tt → Q (r, c1))
          → (port ≡ none → Q (throws, c1))
          → Q (elim o as (λ _. Outcome (Unit {0}) × Client N) [
            | ok a ↦ (or_throw port >>= λ n. modify (connected calls)) c1
            | throws ↦ (throws, c1)
            | fault ↦ (fault, c1)
          ])
      reading (ok _) none done ended missing = missing refl
      reading (ok _) (some n) done ended missing = done
      reading throws port done ended missing = ended throws (λ e. cc) (λ e. cc)
      reading fault port done ended missing = ended fault (λ e. cc) (λ e. cc)

  abbrev Attempted : ConnectCalls → Client N → Outcome (Unit {0}) × Client N → Type 0
  Attempted calls c q =
      (q.1.conn_calculate ≡ c.conn_calculate)
      × ((q.0 ≡ ok tt) ⊎ ((q.0 ≢ ok tt) × Unreadable calls.settings c.ip))

  -- A run of `allowConn` that ends, after no more attempts than this.
  abbrev pub EndsWithin :
      (ℕ → ConnectCalls) → ℕ → Option (ℕ × Outcome (Unit {0}) × Client N) → Type 0
  EndsWithin calls most run =
      (tries : ℕ) × (r : Outcome (Unit {0})) × (c' : Client N) × (run ≡ some (tries, r, c'))
      × Ended calls tries r c'
      × (tries ≤ most)
