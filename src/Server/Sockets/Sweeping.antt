-- ===== src/Server/Sockets/Sweeping.antt =====
-- Which connections `freeEmptysocket` (src/InertiaTrader/server.cpp) frees, and when its loop leaves the
-- map.
use inertia_trader.Common.{
  ℕ, suc, ◌+◌, ◌%◌, ◌≤◌, ◌≡◌, refl, ap, ◌∙◌, Bool, true, false, not, if◌then◌else◌, ◌==◌, some,
  none, Option, ◌&&◌, List, [], ◌∷◌, length, arith,
}
use inertia_trader.Common.Int.{ℤ}
use inertia_trader.Common.Action.{Outcome, ok, fault}
use inertia_trader.Connection.{Connection}
use inertia_trader.Server.{Server}
use inertia_trader.Server.Sockets.{
  Storage, receiving, keep_entry, sweep_last, sweep_next, sweep, swept, free_empty_socket,
}

-- A stored pointer that leads to a dead connection.
abbrev pub is_dead : List Connection → ℤ × Option ℕ → Bool
is_dead cs e = elim (receiving cs e.1) [ none ↦ false | some b ↦ not b ]

-- Each stored pointer leads to a connection.
abbrev pub AllLead : List Connection → Storage → Type 0
AllLead cs [] = Unit
AllLead cs (e ∷ m) = (receiving cs e.1 ≡ some (not (is_dead cs e))) × AllLead cs m

-- The entries that stay: an entry goes if it is dead and the one in front of it has stayed.
abbrev pub kept : List Connection → Bool → Storage → Storage
kept cs freed [] = []
kept cs true (e ∷ m) = e ∷ kept cs false m
kept cs false (e ∷ m) = if is_dead cs e then kept cs true m else e ∷ kept cs false m

-- Whether the last entry goes, so that the iterator behind it is moved on.
abbrev last_freed : List Connection → Bool → Storage → Bool
last_freed cs freed [] = freed
last_freed cs true (e ∷ m) = last_freed cs false m
last_freed cs false (e ∷ m) = last_freed cs (is_dead cs e) m

-- How many dead connections stand at the end of the map.
abbrev pub dead_tail : List Connection → Storage → ℕ
dead_tail cs [] = 0
dead_tail cs (e ∷ m) = let n = dead_tail cs m in if is_dead cs e && n == length m then suc n else n

dead_tail-length : (cs : List Connection) (m : Storage) → dead_tail cs m ≤ length m
dead_tail-length cs [] = omega arith
dead_tail-length cs (e ∷ m) = ground (arith, dead_tail-length cs m)

abbrev one_if : Bool → ℕ
one_if b = if b then 1 else 0

last_freed-dead_tail :
    (cs : List Connection) (freed : Bool) (m : Storage)
    → last_freed cs freed m ≡ (
        if dead_tail cs m == length m
        then (length m + one_if freed) % 2 == 1
        else dead_tail cs m % 2 == 1)
last_freed-dead_tail cs true [] = ground arith
last_freed-dead_tail cs false [] = ground arith
last_freed-dead_tail cs true (e ∷ m) =
    ground (arith, last_freed-dead_tail cs false m, dead_tail-length cs m)
last_freed-dead_tail cs false (e ∷ m) =
    ground (
      arith,
      last_freed-dead_tail cs true m,
      last_freed-dead_tail cs false m,
      dead_tail-length cs m,
    )

-- The loop leaves the map if the last entry goes.
abbrev leaves : Bool → Storage → Outcome Storage
leaves gone m = if gone then fault else ok m

keep_entry-leaves :
    (e : ℤ × Option ℕ) (gone : Bool) (m : Storage)
    → keep_entry e (leaves gone m) ≡ leaves gone (e ∷ m)
keep_entry-leaves e true m = refl
keep_entry-leaves e false m = refl

sweep_last-kept :
    (cs : List Connection) (e : ℤ × Option ℕ) (dead : Bool)
    → sweep_last (some (not dead)) e ≡ leaves dead (if dead then [] else e ∷ [])
sweep_last-kept cs e true = refl
sweep_last-kept cs e false = refl

sweep_next-kept :
    (cs : List Connection) (dead : Bool) (e next : ℤ × Option ℕ) (m : Storage)
    (from_next behind_next : Outcome Storage)
    → from_next ≡ leaves (last_freed cs false (next ∷ m)) (kept cs false (next ∷ m))
    → behind_next ≡ leaves (last_freed cs false m) (kept cs false m)
    → sweep_next (some (not dead)) e next from_next behind_next
      ≡ leaves
          (last_freed cs dead (next ∷ m))
          (if dead then kept cs true (next ∷ m) else e ∷ kept cs false (next ∷ m))
sweep_next-kept cs true e next m from_next behind_next h h' =
    ap (keep_entry next) h' ∙ keep_entry-leaves next (last_freed cs false m) (kept cs false m)
sweep_next-kept cs false e next m from_next behind_next h h' =
    ap (keep_entry e) h
    ∙ keep_entry-leaves e (last_freed cs false (next ∷ m)) (kept cs false (next ∷ m))

sweep-kept :
    (cs : List Connection) (m : Storage)
    → AllLead cs m
    → sweep cs m ≡ leaves (last_freed cs false m) (kept cs false m)
unfolding sweep
sweep-kept cs [] all = refl
sweep-kept cs (e ∷ []) all = ap (λ b. sweep_last b e) all.0 ∙ sweep_last-kept cs e (is_dead cs e)
sweep-kept cs (e ∷ next ∷ m) all =
    ap (λ b. sweep_next b e next (sweep cs (next ∷ m)) (sweep cs m)) all.0
    ∙ sweep_next-kept cs (is_dead cs e) e next m (sweep cs (next ∷ m)) (sweep cs m)
        (sweep-kept cs (next ∷ m) all.1) (sweep-kept cs m all.1.1)

swept-leaves :
    {N : Type 0} (gone : Bool) (m : Storage) (s : Server N)
    → swept (leaves gone m) s
      ≡ (if gone then (fault, s) else (ok tt, record s { conn_storage = m }))
swept-leaves true m s = refl
swept-leaves false m s = refl

-- Whether an odd number of dead connections stands at the end.
abbrev pub odd_tail : List Connection → Storage → Bool
odd_tail cs m = dead_tail cs m % 2 == 1

-- Where each stored pointer leads to a connection, a sweep ends in undefined behaviour exactly if an odd
-- number of dead connections stands at the end of the storage; otherwise it takes out each dead
-- connection whose predecessor has stayed, and changes nothing else of the server.
pub free_empty_socket-kept :
    {N : Type 0} (s : Server N)
    → AllLead s.conns s.conn_storage
    → free_empty_socket s ≡ (
        if odd_tail s.conns s.conn_storage
        then (fault, s)
        else (ok tt, record s { conn_storage = kept s.conns false s.conn_storage }))
unfolding free_empty_socket
free_empty_socket-kept s all =
    let parity : last_freed s.conns false s.conn_storage ≡ odd_tail s.conns s.conn_storage =
      ground (arith, last_freed-dead_tail s.conns false s.conn_storage) in
    ap (λ r. swept r s) (sweep-kept s.conns s.conn_storage all)
    ∙ swept-leaves (last_freed s.conns false s.conn_storage) (kept s.conns false s.conn_storage) s
    ∙ ap
        (λ b.
          (if b
            then (fault, s)
            else (ok tt, record s { conn_storage = kept s.conns false s.conn_storage })))
        parity
