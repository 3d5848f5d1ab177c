-- ===== src/Server/Sockets/Storage.antt =====
-- What accepting and freeing do to the storage of the connections.
use inertia_trader.Common.{
  ℕ, ◌%◌, ◌≡◌, refl, sym, subst, ◌∙◌, ap, ◌⊎◌, inl, inr, Bool, true, false, Option, none, some,
  List, [], ◌∷◌, arith, length, get_elem?, get_elem?-append_length, ◌≢◌,
}
use inertia_trader.Common.Int.{ℤ, pos}
use inertia_trader.Common.Map.{lookup, int_key, lookup-place_self}
use inertia_trader.Common.Action.{Outcome, ok, fault, throws}
use inertia_trader.Connection.{Connection, new_connection}
use inertia_trader.Platform.{Platform}
use inertia_trader.Server.{Server, set_conn_status}
use inertia_trader.Server.Sockets.{
  Storage, receiving, keep_entry, sweep_last, sweep_next, sweep, swept, free_empty_socket,
  accept_conn,
}

abbrev living_entry : Option Bool → ℤ × Option ℕ → Storage → Storage
living_entry none e m = m
living_entry (some true) e m = e ∷ m
living_entry (some false) e m = m

-- The entries of live connections, in their order.
pub living : List Connection → Storage → Storage
living cs [] = []
living cs (e ∷ m) = living_entry (receiving cs e.1) e (living cs m)

status_cases : (r : Option Bool) → (r ≡ none) ⊎ ((r ≡ some true) ⊎ (r ≡ some false))
status_cases none = inl refl
status_cases (some true) = inr (inl refl)
status_cases (some false) = inr (inr refl)

-- What holds of the map after a sweep, unless the sweep is undefined.
abbrev Keeps : List Connection → Storage → Outcome Storage → Type 0
Keeps cs m (ok m') = living cs m' ≡ living cs m
Keeps cs m throws = ⊥
Keeps cs m fault = Unit

keep_entry-Keeps :
    (cs : List Connection) (e : ℤ × Option ℕ) (m : Storage) (r : Outcome Storage)
    → Keeps cs m r
    → Keeps cs (e ∷ m) (keep_entry e r)
unfolding living
keep_entry-Keeps cs e m (ok m') h = ap (living_entry (receiving cs e.1) e) h
keep_entry-Keeps cs e m throws h = h
keep_entry-Keeps cs e m fault h = h

living-dead :
    (cs : List Connection) (e : ℤ × Option ℕ) (m : Storage)
    → receiving cs e.1 ≡ some false
    → living cs (e ∷ m) ≡ living cs m
unfolding living
living-dead cs e m dead = rw dead

sweep_next-Keeps :
    (cs : List Connection) (b : Option Bool) (e next : ℤ × Option ℕ) (m : Storage)
    (r r' : Outcome Storage)
    → receiving cs e.1 ≡ b
    → Keeps cs (next ∷ m) r
    → Keeps cs m r'
    → Keeps cs (e ∷ next ∷ m) (sweep_next b e next r r')
sweep_next-Keeps cs none e next m r r' is h h' = tt
sweep_next-Keeps cs (some true) e next m r r' is h h' = keep_entry-Keeps cs e (next ∷ m) r h
sweep_next-Keeps cs (some false) e next m r r' is h h' = skip r' (keep_entry-Keeps cs next m r' h')
  where
    skip :
        (q : Outcome Storage)
        → Keeps cs (next ∷ m) (keep_entry next q)
        → Keeps cs (e ∷ next ∷ m) (keep_entry next q)
    skip (ok m') k = k ∙ sym (living-dead cs e (next ∷ m) is)
    skip throws k = k
    skip fault k = k

sweep_last-Keeps :
    (cs : List Connection) (b : Option Bool) (e : ℤ × Option ℕ) → Keeps cs (e ∷ []) (sweep_last b e)
sweep_last-Keeps cs none e = tt
sweep_last-Keeps cs (some true) e = refl
sweep_last-Keeps cs (some false) e = tt

sweep-Keeps : (cs : List Connection) (m : Storage) → Keeps cs m (sweep cs m)
unfolding sweep
sweep-Keeps cs [] = refl
sweep-Keeps cs (e ∷ []) = sweep_last-Keeps cs (receiving cs e.1) e
sweep-Keeps cs (e ∷ next ∷ m) =
    sweep_next-Keeps cs (receiving cs e.1) e next m (sweep cs (next ∷ m)) (sweep cs m) refl
      (sweep-Keeps cs (next ∷ m)) (sweep-Keeps cs m)

Keeps-ok :
    (cs : List Connection) (m m' : Storage) (r : Outcome Storage)
    → r ≡ ok m'
    → Keeps cs m r
    → living cs m' ≡ living cs m
Keeps-ok cs m m' r e k = subst (Keeps cs m) e k

swept-ok :
    {N : Type 0} (r : Outcome Storage) (s : Server N)
    → (swept r s).0 ≡ ok tt
    → r ≡ ok (swept r s).1.conn_storage
swept-ok (ok m) s h = refl
swept-ok throws s h = cc
swept-ok fault s h = cc

-- No live connection is lost: where the sweep is defined, the live entries after it are those
-- before it, in the same order.
pub free_empty_socket-living :
    {N : Type 0} (s : Server N)
    → (free_empty_socket s).0 ≡ ok tt
    → living s.conns (free_empty_socket s).1.conn_storage ≡ living s.conns s.conn_storage
unfolding free_empty_socket
free_empty_socket-living s h =
    let r = sweep s.conns s.conn_storage in
    Keeps-ok s.conns s.conn_storage (swept r s).1.conn_storage r (swept-ok r s h)
      (sweep-Keeps s.conns s.conn_storage)

-- A new connection is on the heap. It is stored under its id if that was free; if not, the storage
-- stays as it was, and the id still leads to the older connection.
pub accept_conn-storage :
    {N : Type 0} (P : Platform N) (socket : ℕ) (s : Server N)
    → let id = pos (P.rand s.draws % 99) in
      let s' = (accept_conn P (some socket) s).1 in
      (get_elem? s'.conns (length s.conns)
        ≡ some (new_connection socket id (P.unset_flag (length s.conns))))
      × (lookup id s.conn_storage ≡ none → lookup id s'.conn_storage ≡ some (some (length s.conns)))
      × (lookup id s.conn_storage ≢ none → s'.conn_storage ≡ s.conn_storage)
unfolding accept_conn new_connection set_conn_status
accept_conn-storage P socket s =
    let id = pos (P.rand s.draws % 99) in
    (
      get_elem?-append_length s.conns [] _,
      (λ free. rw free (lookup-place_self id (some (length s.conns)) s.conn_storage free)),
      λ taken. ground (arith, taken),
    )
