-- ===== src/Lib.antt =====
-- InertiaTrader: a simulated exchange. Clients connect over sockets to a server, log in and send
-- orders, cancellations, changes and price questions. The server cuts the bytes into messages and
-- puts orders and changes into two queues. The trader takes them out, checks risk and balance, keeps
-- the books, matches orders and reports trades; a MariaDB database keeps users and orders. A market
-- maker is a client of its own that keeps sending orders.
--
-- The files and the code that they model:
--   Funclib      funclib: Split (split), DataQueue (pushDTA, popDTA, checkSpace), InitParser
--                (findLine, readLine), Logwriter (write, getTime, and the constructor's file name)
--   Types        src/InertiaTrader/enumStorage.h, src/InertiaTrader/tableObject.h and
--                src/Database/table.h
--   Database     src/Database: the statements that tradingDataHandler.cpp sends; Database/Handler
--                is mariaDBHandler.cpp and the loop that connects
--   Connection   src/InertiaTrader/connection.cpp
--   Server       src/InertiaTrader/server.cpp: Server (sendToClient, getConnObject, quoteUpdate),
--                Server/Framing and Server/Messages (msgRecv, msgHandler, loginMsgHandle),
--                Server/Sockets (the constructor, acceptConn, heartbeat, freeEmptysocket),
--                Server/Messages/Leaving (a receive that fails),
--                Server/Pointers (the pointers of connStorage_ between the rounds of its threads)
--   Trader       src/InertiaTrader/trader.cpp: Trader/Risk (RiskController), Trader/Nid
--                (generateNid), Trader/Books (orderDataInsert and the vectors), Trader/Orders
--                (getOrder), Trader/Changes (getCancelOrder), Trader/Matching (matchup),
--                Trader/Reports (sendExecReport, generateExecReport), Trader/Startup (the
--                constructor, loadExistOrder, startTransaction, and src/main.cpp), Trader/Threads
--                (the mutex cv_m in matchup, orderDataInsert and startTransaction), Trader/Holdings
--                (where an order lies between the rounds of the four threads), Trader/Integrity (what
--                the orders that are held have, over those rounds), Trader/Members (the member
--                functions of Order, and the class Report)
--   MarketMaker  src/MarketMaker/client.cpp; MarketMaker/Replies is what the server sends to it,
--                MarketMaker/Hearing how its bytes are read, and MarketMaker/Counting,
--                MarketMaker/Receives and MarketMaker/Limits follow the rounds of its threads
--   Common       texts, maps, integers and calls that change a state; Platform is what the program
--                calls and does not implement; Examples runs the code on concrete inputs
--
-- How code becomes definitions. A method is a function from the state of its object to an outcome and
-- a new state: a value, a C++ exception, or undefined behaviour (`fault`). The endless loops of the
-- threads are left out: a definition is one round of such a loop. An object that pointers share lies
-- on a heap: connections in a list and orders in a map, under their addresses, which the allocator
-- chooses. Numbers are natural numbers or integers, with the bounds of `int` and `long` where the
-- code can reach them. A price is of any type with the operations of `double` that the code uses.
--
-- Bounds and fuel. The loop of `split` has a round for each byte and one more, which is enough since
-- each round takes a byte at least. The reconnection of the market maker takes the number of its
-- rounds as fuel; four rounds less its counter are enough. The handler makes six attempts to connect,
-- as the code does. The queues have the limit 100, which the code stores and does not use.
--
-- Parameters, and not definitions: floating-point numbers, of which FloatLaws and DoubleLaws in
-- Common/Floats say what a theorem relies on, the MariaDB client, the socket calls,
-- `rand`, the clock, the lines of the settings file, memory that is read before it is set, and
-- what the C++ standard leaves open (the order of evaluation, iterators of different containers).
--
-- Threads. A round of a thread is one step where rounds follow each other (Trader/Holdings,
-- Trader/Integrity, Server/Pointers and MarketMaker/Limits); rounds go on behind one that ends in
-- undefined behaviour, which adds states. In Trader/Threads a move is one operation on the mutex
-- `cv_m` or the insertion of an order, and what the data say is left open.
--
-- Not modelled: console and log output at each call, the waits, moves of two threads inside one round
-- on the same data, wake-ups of a condition variable without cause; the copy of googletest under
-- include; the scripts, the containers and the SQL files.
pub mod Common
pub mod Funclib
pub mod Types
pub mod Platform
pub mod Database
pub mod Connection
pub mod Server
pub mod Trader
pub mod MarketMaker
pub mod Examples
