-- ===== src/Trader/Threads/Undefined.antt =====
-- The threads by the C++ standard alone.
use inertia_trader.Common.{
  ◌≤◌, ◌≡◌, refl, sym, ap, ◌∙◌, ◌⊎◌, inl, inr, Bool, true, false, Option, none, some, arith,
  if◌then◌else◌, Bool-cases,
}
use inertia_trader.Trader.Threads.{
  Actor, MainPc, MatchPc, OrderPc, pending, MutexKind, System, Move, step, Reach, start, later,
  match_move, main_move, book_move,
}

-- The places of `matchup` before its first round, with what it holds there.
abbrev Early : MatchPc → System → Type 0
Early MatchPc.before_lock s = Unit
Early MatchPc.waiting s = s.owner ≡ some Actor.match_thread
Early MatchPc.sleeping s = Unit
Early MatchPc.head s = s.owner ≡ some Actor.match_thread
Early MatchPc.ended s = Unit
Early _ s = ⊥

-- The mutex is not held by a thread that never locks it.
abbrev IsLocker : Option Actor → Type 0
IsLocker none = Unit
IsLocker (some Actor.main_thread) = Unit
IsLocker (some Actor.order_thread) = ⊥
IsLocker (some Actor.match_thread) = Unit

-- No round was begun and no unlock of `orderDataInsert` passed; one order may be in its book.
record IsIdle (s : System) : Type 0 where
  rounds_zero : s.rounds ≡ 0
  trades_zero : s.trades ≡ 0
  released_zero : s.released ≡ 0
  booked_pending : s.booked ≡ pending s.order_pc
  locker : IsLocker s.owner
  early : (s.broken ≡ true) ⊎ Early s.match_pc s

book-IsIdle :
    (s : System) (pc : OrderPc) (o : Option Actor)
    → s.order_pc ≡ pc
    → s.owner ≡ o
    → IsIdle s
    → IsIdle (book_move MutexKind.standard pc s)
book-IsIdle s OrderPc.before_insert o p e i = ground arith
book-IsIdle s OrderPc.before_unlock none p e i = ground arith
book-IsIdle s OrderPc.before_unlock (some Actor.main_thread) p e i = ground arith
book-IsIdle s OrderPc.before_unlock (some Actor.order_thread) p e i = ground arith
book-IsIdle s OrderPc.before_unlock (some Actor.match_thread) p e i = ground arith

main-IsIdle :
    (s t : System) (pc : MainPc) (o : Option Actor)
    → s.owner ≡ o
    → IsIdle s
    → main_move MutexKind.standard pc s ≡ some t
    → IsIdle t
main-IsIdle s t MainPc.arriving none e i m = ground arith
main-IsIdle s t MainPc.arriving (some a) e i m = ground arith
main-IsIdle s t MainPc.checking none e i m = ground arith
main-IsIdle s t MainPc.checking (some a) e i m = ground arith
main-IsIdle s t MainPc.asleep o e i m = ground arith

match-IsIdle :
    (s t : System) (pc : MatchPc) (c : Bool) (o : Option Actor)
    → s.match_pc ≡ pc
    → s.owner ≡ o
    → s.broken ≡ false
    → IsIdle s
    → match_move MutexKind.standard pc c s ≡ some t
    → IsIdle t
match-IsIdle s t MatchPc.before_lock c none p e b i m = ground arith
match-IsIdle s t MatchPc.before_lock c (some a) p e b i m = ground arith
match-IsIdle s t MatchPc.waiting true o p e b i m = ground arith
match-IsIdle s t MatchPc.waiting false o p e b i m = ground arith
match-IsIdle s t MatchPc.head true o p e b i m = ground arith
match-IsIdle s t MatchPc.head false o p e b i m = ground arith
match-IsIdle s t MatchPc.sleeping c o p e b i m = ground arith
match-IsIdle s t MatchPc.in_round c o p e b i m = ground arith
match-IsIdle s t MatchPc.before_trade c o p e b i m = ground arith
match-IsIdle s t MatchPc.in_trade c o p e b i m = ground arith
match-IsIdle s t MatchPc.after_trade c o p e b i m = ground arith
match-IsIdle s t MatchPc.ended c o p e b i m = ground arith

step-IsIdle : (m : Move) (s t : System) → IsIdle s → step MutexKind.standard m s ≡ some t → IsIdle t
unfolding step
step-IsIdle Move.main_step s t i e = ground (arith, main-IsIdle s t s.main_pc s.owner refl i)
step-IsIdle Move.book_step s t i e = ground (arith, book-IsIdle s s.order_pc s.owner refl refl i)
step-IsIdle (Move.match_step c) s t i e = elim (Bool-cases s.broken) [
  | inl b ↦ ground (arith, b)
  | inr b ↦
      match-IsIdle s t s.match_pc c s.owner refl refl b i
        (ap (λ q. if q then none else match_move MutexKind.standard s.match_pc c s) (sym b) ∙ e)
]

Reach-IsIdle : {s : System} → Reach MutexKind.standard MainPc.arriving s → IsIdle s
Reach-IsIdle start = record {
  rounds_zero = refl;
  trades_zero = refl;
  released_zero = refl;
  booked_pending = refl;
  locker = tt;
  early = inr tt;
}
Reach-IsIdle (later {s} {t} m r e) = step-IsIdle m s t (Reach-IsIdle r) e

pending-le : (pc : OrderPc) → pending pc ≤ 1
pending-le OrderPc.before_insert = omega arith
pending-le OrderPc.before_unlock = omega arith

-- By the standard, in whatever order the threads move: no round of `matchup` begins, no trade is made,
-- no call of `orderDataInsert` gets behind its unlock, and one order at most is put into a raw book,
-- since behaviour is undefined then. `orderDataInsert` unlocks a mutex that its thread does not hold,
-- and `matchup` locks the one that it holds.
pub Reach-no_rounds :
    {s : System}
    → Reach MutexKind.standard MainPc.arriving s
    → (s.rounds ≡ 0) × (s.trades ≡ 0) × (s.released ≡ 0) × (s.booked ≤ 1)
Reach-no_rounds {s} r =
    let i = Reach-IsIdle r in
    (
      i.rounds_zero,
      i.trades_zero,
      i.released_zero,
      omega (arith, i.booked_pending, pending-le s.order_pc),
    )
