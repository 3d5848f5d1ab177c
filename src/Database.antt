-- ===== src/Database.antt =====
-- src/Database: the statements that the program sends to MariaDB. The state is the list of the
-- commands sent so far, the oldest first.
pub mod Handler
use inertia_trader.Common.{
  ℕ, Bool, true, false, not, Option, none, some, List, [], ◌∷◌, ◌++◌, Text, codes, get_elem?,
  if◌then◌else◌, text_eq,
}
use inertia_trader.Common.Action.{
  Action, Outcome, ok, fault, throws, ◌>>=◌, ◌>>◌, pure, or_fault, or_throw,
}
use inertia_trader.Common.Decimal.{int_to_string, stoi, stol}
use inertia_trader.Common.Map.{Map, insert, text_key}
use inertia_trader.Platform.{Platform}
use inertia_trader.Types.{OrderData, UserData}

abbrev pub History : Type 0
History = List Text

-- Every column of every row, one behind the other.
unfoldable pub columns : List (List Text) → List Text
columns [] = []
columns (row ∷ rows) = row ++ columns rows

abbrev pub insert_report_query : Text → Text → Text → Text → Text → Text
insert_report_query nid order_price exec_price side serial =
    codes
      "INSERT INTO `stock`.`ExecReport` (`NID`, `OrderPrice`, `ExecPrice`, `Side`, `Client_SerialNum`) VALUES ("
    ++ (nid
        ++ (codes ","
            ++ (order_price
                ++ (codes ","
                    ++ (exec_price
                        ++ (codes "," ++ (side ++ (codes "," ++ (serial ++ codes ");")))))))))

abbrev pub update_situation_query : Text → Text → Text
update_situation_query nid status =
    codes "UPDATE `stock`.`Order` SET `Order_situation`='"
    ++ (status ++ (codes "' WHERE `NID`=" ++ (nid ++ codes ";")))

abbrev pub update_price_query : Text → Text → Text
update_price_query nid price =
    codes "UPDATE `stock`.`Order` SET `OrderPrice`='"
    ++ (price ++ (codes "' WHERE `NID`=" ++ (nid ++ codes ";")))

module _ {N : Type 0} (P : Platform N) where
  unfoldable pub mysql_query : Text → Action History Bool
  mysql_query query h = (ok (P.accepts h query), h ++ query ∷ [])

  -- `mysql_query` and `mysql_store_result`; reading a null result is undefined.
  unfoldable pub select : Text → Action History (List (List Text))
  select query h = elim (P.rows h query) [
    | none ↦ (fault, h ++ query ∷ [])
    | some rs ↦ (ok rs, h ++ query ∷ [])
  ]

  -- A row as the `UserData` that the loop makes of it.
  unfoldable pub user_of_row : List Text → Action History (UserData N)
  user_of_row row = do
    user ← or_fault (get_elem? row 0)
    password ← or_fault (get_elem? row 1)
    balance_text ← or_fault (get_elem? row 2)
    balance ← or_throw (P.stod balance_text)
    book_text ← or_fault (get_elem? row 3)
    book ← or_throw (P.stod book_text)
    pure (record { user_id = user; password = password; balance = balance; book_value = book })

  unfoldable pub users_of_rows :
      List (List Text) → Map Text (UserData N) → Action History (Map Text (UserData N))
  users_of_rows [] m = pure m
  users_of_rows (row ∷ rows) m = do
    ud ← user_of_row row
    users_of_rows rows (insert ud.user_id ud m)

  -- `conn` is whether the handle is not null.
  unfoldable pub get_user_data : Bool → Action History (Map Text (UserData N))
  get_user_data conn =
      if conn
      then (do rs ← select (codes "SELECT * FROM stock.User;"); users_of_rows rs [])
      else pure []

  unfoldable pub get_trading_data : Bool → Action History (List Text)
  get_trading_data conn =
      if conn
      then (do
        rs ← select (codes "SELECT * FROM stock.InitData ORDER BY ID DESC LIMIT 1;")
        pure (columns rs))
      else pure []

  unfoldable pub get_product_list : Bool → Action History (List Text)
  get_product_list conn =
      if conn
      then (do
        rs ← select (codes "SELECT `product_id` FROM stock.ProductList ;")
        pure (columns rs))
      else pure []

  -- `symbol` and `userID` of a loaded order stay empty.
  unfoldable pub order_of_row : List Text → Action History (OrderData N)
  order_of_row row = do
    nid ← or_fault (get_elem? row 0)
    price_text ← or_fault (get_elem? row 1)
    price ← or_throw (P.stod price_text)
    side_text ← or_fault (get_elem? row 4)
    side ← or_throw (stoi side_text)
    serial_text ← or_fault (get_elem? row 6)
    serial ← or_throw (stol serial_text)
    pure (record {
      nid = nid;
      order_price = price;
      symbol = [];
      user_id = [];
      side = side;
      client_serialnum = serial;
    })

  unfoldable pub orders_of_rows : List (List Text) → Action History (List (OrderData N))
  orders_of_rows [] = pure []
  orders_of_rows (row ∷ rows) = do od ← order_of_row row; ods ← orders_of_rows rows; pure (od ∷ ods)

  unfoldable pub get_exist_order : Bool → Action History (List (OrderData N))
  get_exist_order conn =
      if conn
      then (do rs ← select (codes "SELECT * FROM stock.Valid_Order ;"); orders_of_rows rs)
      else pure []

  abbrev pub insert_order_query : OrderData N → Text
  insert_order_query od =
      codes
        "INSERT INTO `stock`.`Order` (`NID`, `OrderPrice`, `Symbol`, `UserID`, `Side`, `Order_situation`, `Client_SerialNum`) VALUES ("
      ++ (od.nid
          ++ (codes ","
              ++ (P.to_string od.order_price
                  ++ (codes ",'"
                      ++ (od.symbol
                          ++ (codes "',"
                              ++ (od.user_id
                                  ++ (codes ","
                                      ++ (int_to_string od.side
                                          ++ (codes ", '1' ,"
                                              ++ (int_to_string od.client_serialnum
                                                  ++ codes ");")))))))))))

  unfoldable pub insert_order : OrderData N → Action History Bool
  insert_order od = mysql_query (insert_order_query od)

  abbrev add_trader_query : UserData N → Text
  add_trader_query ud =
      codes "INSERT INTO `stock`.`User` (`user`, `password`, `balance`, `book_value`) VALUES ("
      ++ (ud.user_id
          ++ (codes ","
              ++ (ud.password
                  ++ (codes ","
                      ++ (P.to_string ud.balance
                          ++ (codes "," ++ (P.to_string ud.book_value ++ codes ");")))))))

  unfoldable pub add_trader : UserData N → Action History Bool
  add_trader ud = mysql_query (add_trader_query ud)

  unfoldable pub insert_report : Text → Text → Text → Text → Text → Action History Bool
  insert_report nid order_price exec_price side serial =
      mysql_query (insert_report_query nid order_price exec_price side serial)

  unfoldable pub update_order_situation : Text → Text → Action History Bool
  update_order_situation nid status = mysql_query (update_situation_query nid status)

  unfoldable pub update_order_price : Text → Text → Action History Bool
  update_order_price nid price = mysql_query (update_price_query nid price)
