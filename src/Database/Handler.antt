-- ===== src/Database/Handler.antt =====
-- The handle itself: MariaDBHandler, and the constructor and the worker of TradingDataHandler.
pub mod Attempts
use inertia_trader.Common.{
  ℕ, zero, suc, ◌+◌, ◌≡◌, refl, Bool, true, false, not, Option, none, some, List, [], ◌∷◌, ◌++◌,
  Text, codes, get_elem?, if◌then◌else◌, ltb,
}
use inertia_trader.Common.Action.{
  Action, Outcome, ok, fault, throws, ◌>>=◌, ◌>>◌, pure, or_fault, zoom,
}
use inertia_trader.Common.Map.{Map, lookup, text_key}
use inertia_trader.Platform.{Platform}
use inertia_trader.Funclib.InitParser.{InitParser, new_parser, read_line, setting}
use inertia_trader.Funclib.DataQueue.{DataQueue, pop_dta}
use inertia_trader.Database.{History, mysql_query, select, columns}

-- What `initialise` hands to `mysql_real_connect`.
pub record Login : Type 0 where
  pub hostname : Text
  pub username : Text
  pub password : Text
  pub database : Text
  pub port : ℕ

unfoldable pub login_of : InitParser → Login
login_of p = record {
  hostname = setting (codes "addr") p;
  username = setting (codes "user") p;
  password = codes "Aa1234";
  database = setting (codes "database") p;
  port = 3306;
}

-- The settings file is read again at each attempt; the state counts the attempts.
unfoldable pub initialise : {N : Type 0} → Platform N → Option (List Text) → Text → Action ℕ Bool
initialise P file cfg attempt =
    let (r, p) = read_line file (new_parser cfg) in
    let login = login_of p in
    elim r [
      | ok _ ↦ (ok (P.connects attempt login.hostname login.username login.database), suc attempt)
      | throws ↦ (throws, attempt)
      | fault ↦ (fault, attempt)
    ]

-- `while(!initialise(iniopt)) { i++; …; if(i>5) return; connstatus = false; }`: the rounds that are
-- left, and `connstatus`, which is not set before the first round ends.
unfoldable pub connect_loop :
    {N : Type 0} → Platform N → Option (List Text) → Text → ℕ → Action ℕ Bool
connect_loop P file cfg zero = pure false
connect_loop P file cfg (suc rounds) = do
  connected ← initialise P file cfg
  if connected then pure true else connect_loop P file cfg rounds

-- The handler's `connstatus` after its construction. The sixth failure returns.
unfoldable new_handler : {N : Type 0} → Platform N → Option (List Text) → Text → Action ℕ Bool
new_handler P file cfg = connect_loop P file cfg 6

module _ {N : Type 0} (P : Platform N) where
  -- What `showTableItems` prints: a line for each column of each row.
  unfoldable show_table_items : Bool → Text → Action History (List Text)
  show_table_items conn command =
      if conn then (do rs ← select P command; pure (columns rs)) else pure []

  -- `MariaDBHandler::insertOrderData` does not look at its argument.
  unfoldable insert_order_data : Action History (Unit {0})
  insert_order_data = do
    mysql_query P (
        codes
          "INSERT INTO `Order` (`NID`, `OrderID`, `OrderPrice`, `Symbol`, `UserID`) VALUES ('222', 'aa1234', '12.6', 'TXO', '0324027');")
    pure tt

  -- One round of `sqlCommandExec`, when the queue is not empty.
  unfoldable sql_command_exec : Action (DataQueue × History) (Unit {0})
  sql_command_exec = do
    query ← zoom (λ s. s.0) (λ q s. (q, s.1)) pop_dta
    zoom (λ s. s.1) (λ h s. (s.0, h)) (mysql_query P query)
    pure tt
