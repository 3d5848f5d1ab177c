-- ===== src/Trader/Threads/Progress.antt =====
-- The threads on the `fast` mutex of Linux, while the main thread sleeps in its wait.
use inertia_trader.Common.{
  ℕ, ◌+◌, ◌≤◌, ◌<◌, ◌≡◌, refl, sym, ap, ◌∙◌, Bool, true, false, Option, none, some, List, [], ◌∷◌,
  arith, if◌then◌else◌,
}
use inertia_trader.Trader.Threads.{
  Actor, MainPc, MatchPc, OrderPc, pending, MutexKind, System, Move, step, Reach, start, later,
  match_move, book_move,
}

-- How many trades and rounds the unlocks of `orderDataInsert` pay for, by where `matchup` stands: by the
-- owner of the mutex, the rounds, the trades and those unlocks.
abbrev Paid : MatchPc → Option Actor → ℕ → ℕ → ℕ → Type 0
Paid MatchPc.before_lock o r n k = (r ≡ 0) × (n ≡ 0)
Paid MatchPc.sleeping o r n k = (r ≡ 0) × (n ≡ 0)
Paid MatchPc.waiting o r n k = (r ≡ 0) × (n ≡ 0) × (o ≡ none → 1 ≤ k)
Paid MatchPc.head o r n k = (n ≤ k) × (0 < r → n + 1 ≤ k) × (o ≡ none → n + 1 ≤ k)
Paid MatchPc.in_round o r n k = (n + 1 ≤ k) × (o ≡ none → n + 2 ≤ k)
Paid MatchPc.before_trade o r n k = (n + 1 ≤ k) × (o ≡ none → n + 2 ≤ k)
Paid MatchPc.in_trade o r n k = n + 2 ≤ k
Paid MatchPc.after_trade o r n k = n + 1 ≤ k
Paid MatchPc.ended o r n k = 0 < r → n + 1 ≤ k

abbrev IsMatcher : Option Actor → Type 0
IsMatcher none = Unit
IsMatcher (some Actor.main_thread) = ⊥
IsMatcher (some Actor.order_thread) = ⊥
IsMatcher (some Actor.match_thread) = Unit

record Inv (s : System) : Type 0 where
  main_asleep : s.main_pc ≡ MainPc.asleep
  no_other : IsMatcher s.owner
  unbroken : s.broken ≡ false
  paid : Paid s.match_pc s.owner s.rounds s.trades s.released
  ordered : s.booked ≡ s.released + pending s.order_pc

unlock-Inv :
    (s : System) (pc : MatchPc) (o : Option Actor)
    → s.match_pc ≡ pc
    → s.owner ≡ o
    → s.order_pc ≡ OrderPc.before_unlock
    → Inv s
    → Inv (book_move MutexKind.fast OrderPc.before_unlock s)
unlock-Inv s pc (some Actor.main_thread) p e q i = ground arith
unlock-Inv s pc (some Actor.order_thread) p e q i = ground arith
unlock-Inv s MatchPc.before_lock none p e q i = ground arith
unlock-Inv s MatchPc.before_lock (some Actor.match_thread) p e q i = ground arith
unlock-Inv s MatchPc.waiting none p e q i = ground arith
unlock-Inv s MatchPc.waiting (some Actor.match_thread) p e q i = ground arith
unlock-Inv s MatchPc.sleeping none p e q i = ground arith
unlock-Inv s MatchPc.sleeping (some Actor.match_thread) p e q i = ground arith
unlock-Inv s MatchPc.head none p e q i = ground arith
unlock-Inv s MatchPc.head (some Actor.match_thread) p e q i = ground arith
unlock-Inv s MatchPc.in_round none p e q i = ground arith
unlock-Inv s MatchPc.in_round (some Actor.match_thread) p e q i = ground arith
unlock-Inv s MatchPc.before_trade none p e q i = ground arith
unlock-Inv s MatchPc.before_trade (some Actor.match_thread) p e q i = ground arith
unlock-Inv s MatchPc.in_trade none p e q i = ground arith
unlock-Inv s MatchPc.in_trade (some Actor.match_thread) p e q i = ground arith
unlock-Inv s MatchPc.after_trade none p e q i = ground arith
unlock-Inv s MatchPc.after_trade (some Actor.match_thread) p e q i = ground arith
unlock-Inv s MatchPc.ended none p e q i = ground arith
unlock-Inv s MatchPc.ended (some Actor.match_thread) p e q i = ground arith

book-Inv :
    (s : System) (pc : OrderPc) → s.order_pc ≡ pc → Inv s → Inv (book_move MutexKind.fast pc s)
book-Inv s OrderPc.before_insert p i = record {
  main_asleep = i.main_asleep;
  no_other = i.no_other;
  unbroken = i.unbroken;
  paid = i.paid;
  ordered = ground (arith, i.ordered);
}
book-Inv s OrderPc.before_unlock p i = unlock-Inv s s.match_pc s.owner refl refl p i

match-Inv :
    (s t : System) (pc : MatchPc) (c : Bool) (o : Option Actor)
    → s.match_pc ≡ pc
    → s.owner ≡ o
    → Inv s
    → match_move MutexKind.fast pc c s ≡ some t
    → Inv t
match-Inv s t MatchPc.before_lock c none p e i m = ground arith
match-Inv s t MatchPc.before_lock c (some Actor.match_thread) p e i m = ground arith
match-Inv s t MatchPc.waiting true none p e i m = ground arith
match-Inv s t MatchPc.waiting true (some Actor.match_thread) p e i m = ground arith
match-Inv s t MatchPc.waiting false none p e i m = ground arith
match-Inv s t MatchPc.waiting false (some Actor.match_thread) p e i m = ground arith
match-Inv s t MatchPc.head true none p e i m = ground arith
match-Inv s t MatchPc.head true (some Actor.match_thread) p e i m = ground arith
match-Inv s t MatchPc.head false none p e i m = ground arith
match-Inv s t MatchPc.head false (some Actor.match_thread) p e i m = ground arith
match-Inv s t MatchPc.sleeping c none p e i m = ground arith
match-Inv s t MatchPc.sleeping c (some Actor.match_thread) p e i m = ground arith
match-Inv s t MatchPc.in_round true none p e i m = ground arith
match-Inv s t MatchPc.in_round true (some Actor.match_thread) p e i m = ground arith
match-Inv s t MatchPc.in_round false none p e i m = ground arith
match-Inv s t MatchPc.in_round false (some Actor.match_thread) p e i m = ground arith
match-Inv s t MatchPc.before_trade c none p e i m = ground arith
match-Inv s t MatchPc.before_trade c (some Actor.match_thread) p e i m = ground arith
match-Inv s t MatchPc.in_trade c none p e i m = ground arith
match-Inv s t MatchPc.in_trade c (some Actor.match_thread) p e i m = ground arith
match-Inv s t MatchPc.after_trade c none p e i m = ground arith
match-Inv s t MatchPc.after_trade c (some Actor.match_thread) p e i m = ground arith
match-Inv s t MatchPc.ended c o p e i m = ground arith
match-Inv s t pc c (some Actor.main_thread) p e i m = ground arith
match-Inv s t pc c (some Actor.order_thread) p e i m = ground arith

step-Inv : (m : Move) (s t : System) → Inv s → step MutexKind.fast m s ≡ some t → Inv t
unfolding step
step-Inv Move.main_step s t i e = ground arith
step-Inv Move.book_step s t i e = ground (arith, book-Inv s s.order_pc refl i)
step-Inv (Move.match_step c) s t i e =
    match-Inv s t s.match_pc c s.owner refl refl i
      (ap (λ q. if q then none else match_move MutexKind.fast s.match_pc c s) (sym i.unbroken) ∙ e)

Reach-Inv : {s : System} → Reach MutexKind.fast MainPc.asleep s → Inv s
Reach-Inv start = record {
  main_asleep = refl;
  no_other = tt;
  unbroken = refl;
  paid = (refl, refl);
  ordered = refl;
}
Reach-Inv (later {s} {t} m r e) = step-Inv m s t (Reach-Inv r) e

Paid-trades :
    (s : System) (pc : MatchPc) → s.match_pc ≡ pc → Inv s → 0 < s.rounds → s.trades + 1 ≤ s.released
Paid-trades s MatchPc.before_lock p i h = ground arith
Paid-trades s MatchPc.waiting p i h = ground arith
Paid-trades s MatchPc.sleeping p i h = ground arith
Paid-trades s MatchPc.head p i h = ground arith
Paid-trades s MatchPc.in_round p i h = ground arith
Paid-trades s MatchPc.before_trade p i h = ground arith
Paid-trades s MatchPc.in_trade p i h = ground arith
Paid-trades s MatchPc.after_trade p i h = ground arith
Paid-trades s MatchPc.ended p i h = ground arith

-- On that mutex, in whatever order the threads move: before the first round a call of `orderDataInsert`
-- must have got behind its unlock, and before each trade one more, since `matchup` waits on locks that
-- it holds itself; and each such call has put its order into a raw book before.
pub Reach-trades-le-booked :
    {s : System}
    → Reach MutexKind.fast MainPc.asleep s
    → 0 < s.rounds
    → (s.trades + 1 ≤ s.released) × (s.released ≤ s.booked)
Reach-trades-le-booked {s} r h =
    let i = Reach-Inv r in (Paid-trades s s.match_pc refl i h, omega (arith, i.ordered))

-- A sequence of moves, if each of them can be made.
pub run : List Move → System → Option System
run [] s = some s
run (m ∷ ms) s = elim (step MutexKind.fast m s) [ none ↦ none | some t ↦ run ms t ]

abbrev pub go : Move
go = Move.match_step true

run-cons :
    (m : Move) (ms : List Move) (s t : System)
    → step MutexKind.fast m s ≡ some t
    → run (m ∷ ms) s ≡ run ms t
unfolding run
run-cons m ms s t e = ap (λ o. elim o [ none ↦ none | some u ↦ run ms u ]) e

-- The moves that bring the order thread behind its next unlock.
abbrev pub unlocking : OrderPc → List Move → List Move
unlocking OrderPc.before_insert ms = Move.book_step ∷ Move.book_step ∷ ms
unlocking OrderPc.before_unlock ms = Move.book_step ∷ ms

-- The system behind them, where `matchup` was before a trade.
abbrev pub unlocked : System → System
unlocked s = record s {
  owner = none;
  order_pc = OrderPc.before_insert;
  booked = s.released + 1;
  released = s.released + 1;
}

run-unlocking :
    (s : System) (pc : OrderPc) (ms : List Move)
    → s.order_pc ≡ pc
    → s.owner ≡ some Actor.match_thread
    → Inv s
    → run (unlocking pc ms) s ≡ run ms (unlocked s)
unfolding step
run-unlocking s OrderPc.before_unlock ms p o i =
    let placed : s.booked ≡ s.released + 1 = i.ordered ∙ ap (λ q. s.released + pending q) p in
    run-cons Move.book_step ms s (unlocked s) (simp (i.unbroken, p, o, placed))
run-unlocking s OrderPc.before_insert ms p o i =
    let placed : s.booked ≡ s.released =
      omega (arith, i.ordered ∙ ap (λ q. s.released + pending q) p) in
    let s0 : System = record s { order_pc = OrderPc.before_unlock; booked = s.booked + 1 } in
    run-cons Move.book_step (Move.book_step ∷ ms) s s0 (simp (i.unbroken, p))
    ∙ run-cons Move.book_step ms s0 (unlocked s) (simp (i.unbroken, o, placed))

-- In every reachable state in which `matchup` is about to trade and holds the mutex it can make no
-- move, and neither can the main thread; the next unlock of `orderDataInsert` lets it make the trade
-- and return to the head of the loop, with the mutex free.
pub Reach-before_trade :
    {s : System}
    → Reach MutexKind.fast MainPc.asleep s
    → s.match_pc ≡ MatchPc.before_trade
    → s.owner ≡ some Actor.match_thread
    → ((c : Bool) → step MutexKind.fast (Move.match_step c) s ≡ none)
      × (step MutexKind.fast Move.main_step s ≡ none)
      × (run (unlocking s.order_pc (go ∷ go ∷ go ∷ [])) s
          ≡ some (record (unlocked s) { match_pc = MatchPc.head; trades = s.trades + 1 }))
unfolding step run
Reach-before_trade {s} r p o =
    let i = Reach-Inv r in
    let s1 = unlocked s in
    let s2 : System = record s1 { match_pc = MatchPc.in_trade; owner = some Actor.match_thread } in
    let s3 : System = record s2 {
      match_pc = MatchPc.after_trade;
      owner = none;
      trades = s.trades + 1;
    } in
    let s4 : System = record s3 { match_pc = MatchPc.head; owner = none } in
    (
      λ c. simp (i.unbroken, p, o),
      simp (i.unbroken, i.main_asleep),
      run-unlocking s s.order_pc (go ∷ go ∷ go ∷ []) refl o i
          ∙ run-cons go (go ∷ go ∷ []) s1 s2 (simp (i.unbroken, p))
          ∙ run-cons go (go ∷ []) s2 s3 (simp i.unbroken)
          ∙ run-cons go [] s3 s4 (simp i.unbroken),
    )
