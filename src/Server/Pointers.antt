-- ===== src/Server/Pointers.antt =====
-- The pointers that `connStorage_` holds (src/InertiaTrader/server.cpp), and the calls that change them
-- or the connections that they lead to.
pub mod Sending
pub mod Receiving
pub mod Lifecycle
use inertia_trader.Common.{
  ℕ, suc, ◌+◌, ◌≤◌, ◌<◌, ◌≡◌, refl, subst, sym, Bool, true, false, Option, none, some, List, [],
  ◌∷◌, ◌++◌, Text, length, length-append, length-set, set, get_elem?, arith, if◌then◌else◌, ◌%◌,
}
use inertia_trader.Common.Int.{ℤ, pos, int_lt}
use inertia_trader.Common.Map.{lookup, place, insert, int_key}
use inertia_trader.Common.Action.{
  Action, Outcome, ok, throws, fault, ◌>>=◌, ◌>>◌, pure, or_fault, or_throw, gets, modify, catching,
}
use inertia_trader.Common.Action.Post.{Post, Post-bind, Post-any, any-Post}
use inertia_trader.Platform.{Platform}
use inertia_trader.Connection.{Connection}
use inertia_trader.Server.{
  Server, get_conn_object, connection_at, send_on, send_to_client, write_connection,
}
use inertia_trader.Server.Sockets.{
  Storage, sweep, sweep_last, sweep_next, keep_entry, swept, receiving, free_empty_socket,
}

-- Each pointer is null, or one of the first `n` connections.
abbrev pub AllBelow : ℕ → Storage → Type 0
AllBelow n [] = Unit
AllBelow n ((k, none) ∷ m) = AllBelow n m
AllBelow n ((k, some a) ∷ m) = (a < n) × AllBelow n m

-- No stored pointer dangles.
abbrev pub IsSound : {N : Type 0} → Server N → Type 0
IsSound s = AllBelow (length s.conns) s.conn_storage

pub AllBelow-le : (n k : ℕ) (m : Storage) → n ≤ k → AllBelow n m → AllBelow k m
AllBelow-le n k [] h all = tt
AllBelow-le n k ((i, none) ∷ m) h all = AllBelow-le n k m h all
AllBelow-le n k ((i, some a) ∷ m) h (low, all) = (omega arith, AllBelow-le n k m h all)

AllBelow-cons :
    (n : ℕ) (e : ℤ × Option ℕ) (m : Storage)
    → AllBelow n (e ∷ [])
    → AllBelow n m
    → AllBelow n (e ∷ m)
AllBelow-cons n (k, none) m one all = all
AllBelow-cons n (k, some a) m one all = (one.0, all)

AllBelow-head : (n : ℕ) (e : ℤ × Option ℕ) (m : Storage) → AllBelow n (e ∷ m) → AllBelow n (e ∷ [])
AllBelow-head n (k, none) m all = tt
AllBelow-head n (k, some a) m all = (all.0, tt)

AllBelow-tail : (n : ℕ) (e : ℤ × Option ℕ) (m : Storage) → AllBelow n (e ∷ m) → AllBelow n m
AllBelow-tail n (k, none) m all = all
AllBelow-tail n (k, some a) m all = all.1

AllBelow-if :
    (n : ℕ) (b : Bool) (m m' : Storage)
    → AllBelow n m
    → AllBelow n m'
    → AllBelow n (if b then m else m')
AllBelow-if n true m m' h h' = h
AllBelow-if n false m m' h h' = h'

AllBelow-place :
    (n : ℕ) (k : ℤ) (p : Option ℕ) (m : Storage)
    → AllBelow n ((k, p) ∷ [])
    → AllBelow n m
    → AllBelow n (place k p m)
AllBelow-place n k p [] one all = one
AllBelow-place n k p (e ∷ m) one all =
    AllBelow-if n (int_lt k e.0) ((k, p) ∷ e ∷ m) (e ∷ place k p m)
      (AllBelow-cons n (k, p) (e ∷ m) one all)
      (AllBelow-cons n e (place k p m) (AllBelow-head n e m all)
        (AllBelow-place n k p m one (AllBelow-tail n e m all)))

pub AllBelow-insert :
    (n : ℕ) (k : ℤ) (p : Option ℕ) (m : Storage)
    → AllBelow n ((k, p) ∷ [])
    → AllBelow n m
    → AllBelow n (insert k p m)
AllBelow-insert n k p m one all = inserted (lookup k m)
  where
    inserted : (o : Option (Option ℕ)) → AllBelow n (elim o [ none ↦ place k p m | some w ↦ m ])
    inserted none = AllBelow-place n k p m one all
    inserted (some w) = all

-- What a sweep leaves.
abbrev Swept : ℕ → Outcome Storage → Type 0
Swept n (ok m) = AllBelow n m
Swept n throws = Unit
Swept n fault = Unit

keep_entry-Swept :
    (n : ℕ) (e : ℤ × Option ℕ) (r : Outcome Storage)
    → AllBelow n (e ∷ [])
    → Swept n r
    → Swept n (keep_entry e r)
keep_entry-Swept n e (ok m) one h = AllBelow-cons n e m one h
keep_entry-Swept n e throws one h = tt
keep_entry-Swept n e fault one h = tt

sweep_last-Swept :
    (n : ℕ) (b : Option Bool) (e : ℤ × Option ℕ) → AllBelow n (e ∷ []) → Swept n (sweep_last b e)
sweep_last-Swept n none e one = tt
sweep_last-Swept n (some true) e one = one
sweep_last-Swept n (some false) e one = tt

sweep_next-Swept :
    (n : ℕ) (b : Option Bool) (e next : ℤ × Option ℕ) (r r' : Outcome Storage)
    → AllBelow n (e ∷ [])
    → AllBelow n (next ∷ [])
    → Swept n r
    → Swept n r'
    → Swept n (sweep_next b e next r r')
sweep_next-Swept n none e next r r' one two h h' = tt
sweep_next-Swept n (some true) e next r r' one two h h' = keep_entry-Swept n e r one h
sweep_next-Swept n (some false) e next r r' one two h h' = keep_entry-Swept n next r' two h'

sweep-Swept : (n : ℕ) (cs : List Connection) (m : Storage) → AllBelow n m → Swept n (sweep cs m)
unfolding sweep
sweep-Swept n cs [] all = tt
sweep-Swept n cs (e ∷ []) all = sweep_last-Swept n (receiving cs e.1) e all
sweep-Swept n cs (e ∷ next ∷ m) all =
    let rest = AllBelow-tail n e (next ∷ m) all in
    sweep_next-Swept n (receiving cs e.1) e next (sweep cs (next ∷ m)) (sweep cs m)
      (AllBelow-head n e (next ∷ m) all) (AllBelow-head n next m rest)
      (sweep-Swept n cs (next ∷ m) rest) (sweep-Swept n cs m (AllBelow-tail n next m rest))

-- Calls behind which no stored pointer dangles, if none did before, however they end.
unfoldable pub Sound : {N A : Type 0} → Action (Server N) A → Type 0
Sound {N = N} m = (s : Server N) → IsSound s → IsSound (m s).1

module _ {N : Type 0} (P : Platform N) where
  pub Sound->>= :
      {A B : Type 0} (m : Action (Server N) A) (k : A → Action (Server N) B)
      → Sound m
      → ((a : A) → Sound (k a))
      → Sound (m >>= k)
  unfolding Sound
  Sound->>= m k first next s h =
      any-Post (λ s. s) IsSound ((m >>= k) s)
        (Post-bind (λ s. s) IsSound IsSound IsSound m k s
          (Post-any (λ s. s) IsSound (m s) (first s h))
          λ a s' h'. Post-any (λ s. s) IsSound (k a s') (next a s' h'))

  pub Sound-pure : {A : Type 0} (a : A) → Sound {N = N} (pure a)
  unfolding Sound
  Sound-pure a s h = h

  pub Sound-or_fault : {A : Type 0} (o : Option A) → Sound {N = N} (or_fault o)
  unfolding Sound
  Sound-or_fault none s h = h
  Sound-or_fault (some a) s h = h

  pub Sound-or_throw : {A : Type 0} (o : Option A) → Sound {N = N} (or_throw o)
  unfolding Sound
  Sound-or_throw none s h = h
  Sound-or_throw (some a) s h = h

  pub Sound-if :
      {A : Type 0} (b : Bool) (m n : Action (Server N) A)
      → Sound m
      → Sound n
      → Sound (if b then m else n)
  Sound-if true m n hm hn = hm
  Sound-if false m n hm hn = hn

  pub Sound-catching : (m : Action (Server N) (Unit {0})) → Sound m → Sound (catching m)
  unfolding Sound
  Sound-catching m sound s h = caught (m s) (sound s h)
    where
      caught : (q : Outcome (Unit {0}) × Server N) → IsSound q.1 → IsSound (catching (λ s. q) s).1
      caught (ok a, s') h = h
      caught (throws, s') h = h
      caught (fault, s') h = h

  pub Sound-free_empty_socket : Sound (free_empty_socket {N = N})
  unfolding Sound free_empty_socket
  Sound-free_empty_socket s h =
      left (sweep s.conns s.conn_storage) (sweep-Swept (length s.conns) s.conns s.conn_storage h)
    where
      left : (r : Outcome Storage) → Swept (length s.conns) r → IsSound (swept r s).1
      left (ok m) k = k
      left throws k = h
      left fault k = h

  pub Sound-get_conn_object : (conn : ℤ) → Sound (get_conn_object {N = N} conn)
  unfolding Sound get_conn_object
  Sound-get_conn_object conn s h = found (lookup conn s.conn_storage)
    where
      found :
          (o : Option (Option ℕ))
          → IsSound
              (elim o as (λ _. Outcome (Option ℕ) × Server N) [
                | none ↦ (ok none, record s { conn_storage = insert conn none s.conn_storage })
                | some p ↦ (ok p, s)
              ]).1
      found none = AllBelow-insert (length s.conns) conn none s.conn_storage tt h
      found (some p) = h

  pub Sound-call :
      {A : Type 0} (m : Action (Server N) A)
      → ((s : Server N) → IsSound s → IsSound (m s).1)
      → Sound m
  unfolding Sound
  Sound-call m sound = sound

  pub Sound-connection_at : (a : ℕ) → Sound (connection_at {N = N} a)
  unfolding Sound
  Sound-connection_at a s h = Sound-or_fault (get_elem? s.conns a) s h
