-- ===== src/Trader/Threads.antt =====
-- The threads that share the mutex `cv_m`: that of `matchup`, that of `getOrder`, whose
-- `orderDataInsert` unlocks it, and that of `startTransaction`, which waits for the end. A move is
-- one operation on the mutex, or the insertion of an order into a raw book. What the data of the trader say is left open: a round of `matchup` may
-- find a trade or not. Nothing notifies `cv_`, and no thread is taken to wake up without cause.
pub mod Undefined
pub mod Progress
use inertia_trader.Common.{
  ◌≡◌, ℕ, ◌+◌, Bool, true, false, Option, none, some, List, [], ◌∷◌, if◌then◌else◌,
}

pub data Actor : Type 0 where
  main_thread order_thread match_thread : Actor

-- Where `startTransaction` stands: before `lk1`, behind it, and asleep in `cv_.wait`.
pub data MainPc : Type 0 where
  arriving checking asleep : MainPc

-- Where `matchup` stands: before `lk1`; at the wait; asleep in it; at the head of the loop; in a round,
-- with `lck`; before the `cv_m.lock()` of a trade; with the trade to make; behind `cv_m.unlock()`;
-- and at the end.
pub data MatchPc : Type 0 where
  before_lock waiting sleeping head in_round before_trade in_trade after_trade ended : MatchPc

-- Where `orderDataInsert` stands: before the insertion into a raw book, and before `cv_m.unlock()`.
pub data OrderPc : Type 0 where
  before_insert before_unlock : OrderPc

-- What `std::mutex` does where the standard leaves it undefined: nothing is known, or it is the `fast`
-- mutex of Linux, on which a second lock waits, and an unlock by any thread sets it free.
pub data MutexKind : Type 0 where
  standard fast : MutexKind

pub record System : Type 0 where
  pub owner : Option Actor
  pub main_pc : MainPc
  pub match_pc : MatchPc
  pub order_pc : OrderPc
  -- so far: the rounds begun, the trades made, the orders put into a raw book, and the calls of
  -- `orderDataInsert` that got behind their unlock
  pub rounds : ℕ
  pub trades : ℕ
  pub booked : ℕ
  pub released : ℕ
  -- whether undefined behaviour was met
  pub broken : Bool

abbrev pub init : MainPc → System
init main_pc = record {
  owner = none;
  main_pc = main_pc;
  match_pc = MatchPc.before_lock;
  order_pc = OrderPc.before_insert;
  rounds = 0;
  trades = 0;
  booked = 0;
  released = 0;
  broken = false;
}

abbrev pub same_actor : Actor → Actor → Bool
same_actor Actor.main_thread Actor.main_thread = true
same_actor Actor.order_thread Actor.order_thread = true
same_actor Actor.match_thread Actor.match_thread = true
same_actor _ _ = false

abbrev pub broken_system : System → System
broken_system s = record s { broken = true }

-- A lock of a mutex that the same thread holds.
abbrev pub relock : MutexKind → System → Option System
relock MutexKind.standard s = some (broken_system s)
relock MutexKind.fast s = none

-- An unlock of a mutex that the thread does not hold.
abbrev pub foreign_unlock : MutexKind → System → System → System
foreign_unlock MutexKind.standard s done = broken_system s
foreign_unlock MutexKind.fast s done = done

-- `m.lock()`, and what the thread does then; `none` where it waits.
abbrev pub acquire : MutexKind → Actor → Option Actor → System → System → Option System
acquire kind a none s done = some (record done { owner = some a })
acquire kind a (some b) s done = if same_actor a b then relock kind s else none

-- `m.unlock()`, and what the thread does then.
abbrev pub release : MutexKind → Actor → Option Actor → System → System → System
release kind a none s done = foreign_unlock kind s (record done { owner = none })
release kind a (some b) s done =
    if same_actor a b
    then record done { owner = none }
    else foreign_unlock kind s (record done { owner = none })

module _ (kind : MutexKind) where
  abbrev pub main_move : MainPc → System → Option System
  main_move MainPc.arriving s =
      acquire kind Actor.main_thread s.owner s (record s { main_pc = MainPc.checking })
  main_move MainPc.checking s =
      some (release kind Actor.main_thread s.owner s (record s { main_pc = MainPc.asleep }))
  main_move MainPc.asleep s = none

  -- The choice is the answer of `getconnStatus`, of `getTraderStatus` and of the test for a trade.
  abbrev pub match_move : MatchPc → Bool → System → Option System
  match_move MatchPc.before_lock choice s =
      acquire kind Actor.match_thread s.owner s (record s { match_pc = MatchPc.waiting })
  match_move MatchPc.waiting true s = some (record s { match_pc = MatchPc.head })
  match_move MatchPc.waiting false s =
      some (release kind Actor.match_thread s.owner s (record s { match_pc = MatchPc.sleeping }))
  match_move MatchPc.sleeping choice s = none
  match_move MatchPc.head true s =
      acquire kind Actor.match_thread s.owner s
        (record s { match_pc = MatchPc.in_round; rounds = s.rounds + 1 })
  match_move MatchPc.head false s =
      some (release kind Actor.match_thread s.owner s (record s { match_pc = MatchPc.ended }))
  match_move MatchPc.in_round true s = some (record s { match_pc = MatchPc.before_trade })
  match_move MatchPc.in_round false s =
      some (release kind Actor.match_thread s.owner s (record s { match_pc = MatchPc.head }))
  match_move MatchPc.before_trade choice s =
      acquire kind Actor.match_thread s.owner s (record s { match_pc = MatchPc.in_trade })
  match_move MatchPc.in_trade choice s = some (
      release kind Actor.match_thread s.owner s
        (record s { match_pc = MatchPc.after_trade; trades = s.trades + 1 }))
  match_move MatchPc.after_trade choice s =
      some (release kind Actor.match_thread s.owner s (record s { match_pc = MatchPc.head }))
  match_move MatchPc.ended choice s = none

  -- `orderDataInsert`: the insertion, and then `cv_m.unlock()`
  abbrev pub book_move : OrderPc → System → System
  book_move OrderPc.before_insert s = record s {
    order_pc = OrderPc.before_unlock;
    booked = s.booked + 1;
  }
  book_move OrderPc.before_unlock s =
      release kind Actor.order_thread s.owner s
        (record s { order_pc = OrderPc.before_insert; released = s.released + 1 })

-- The orders that are put into a book, and whose call has not got behind its unlock.
abbrev pub pending : OrderPc → ℕ
pending OrderPc.before_insert = 0
pending OrderPc.before_unlock = 1

pub data Move : Type 0 where
  main_step : Move
  book_step : Move
  match_step : Bool → Move

abbrev pub move : MutexKind → Move → System → Option System
move kind Move.main_step s = main_move kind s.main_pc s
move kind Move.book_step s = some (book_move kind s.order_pc s)
move kind (Move.match_step choice) s = match_move kind s.match_pc choice s

-- A move of a system; there is none where the thread waits, and behind undefined behaviour.
unfoldable pub step : MutexKind → Move → System → Option System
step kind m s = if s.broken then none else move kind m s

-- The systems that a sequence of moves leads to.
pub data Reach (kind : MutexKind) (from : MainPc) : System → Type 0 where
  start : Reach kind from (init from)
  later : {s t : System} (m : Move) → Reach kind from s → step kind m s ≡ some t → Reach kind from t
