-- ===== src/Funclib/DataQueue/Log.antt =====
-- The queues (funclib/dataQueue.cpp) as their readers use them, beside a log with a cursor: what was
-- pushed stays in the log, and the cursor says how much of it was read.
use inertia_trader.Common.{
  ℕ, ◌+◌, ◌≡◌, refl, sym, ◌∙◌, ap, Option, none, some, List, [], ◌∷◌, ◌++◌, Text, length, get_elem?,
  get_elem?-append_length, length-append, arith, append_assoc, if◌then◌else◌, ltb,
}
use inertia_trader.Common.Action.{Action, ok, ◌>>=◌, ◌>>◌, pure, gets}
use inertia_trader.Common.Action.Laws.{>>=-ok}
use inertia_trader.Funclib.DataQueue.{DataQueue, push_dta, pop_dta, check_space, new_queue}

pub data Use : Type 0 where
  push : Text → Use
  poll : Use

-- A reader pops only where `checkSpace` is above 0.
unfoldable pub poll_queue : Action DataQueue (Option Text)
poll_queue = do
  space ← gets check_space
  if ltb 0 space then (do v ← pop_dta; pure (some v)) else pure none

unfoldable pub use_queue : Use → Action DataQueue (Option Text)
use_queue (Use.push v) = do push_dta v; pure none
use_queue Use.poll = poll_queue

-- What each use gives.
unfoldable pub use_all : List Use → Action DataQueue (List (Option Text))
use_all [] = pure []
use_all (u ∷ us) = do r ← use_queue u; rs ← use_all us; pure (r ∷ rs)

pub record Log : Type 0 where
  pub entries : List Text
  pub cursor : ℕ

abbrev pub read_next : Option Text → Log → Option Text × Log
read_next none l = (none, l)
read_next (some v) l = (some v, record l { cursor = l.cursor + 1 })

abbrev pub use_log : Use → Log → Option Text × Log
use_log (Use.push v) l = (none, record l { entries = l.entries ++ v ∷ [] })
use_log Use.poll l = read_next (get_elem? l.entries l.cursor) l

abbrev pub log_results : List Use → Log → List (Option Text)
log_results [] l = []
log_results (u ∷ us) l = (use_log u l).0 ∷ log_results us (use_log u l).1

-- The queue holds what the log has behind its cursor.
abbrev Represents : DataQueue → Log → Type 0
Represents q l = (past : List Text) × (l.entries ≡ past ++ q.data_queue) × (l.cursor ≡ length past)

get_elem?-end : (xs : List Text) → get_elem? (xs ++ []) (length xs) ≡ none
get_elem?-end [] = refl
get_elem?-end (x ∷ xs) = get_elem?-end xs

poll_queue-some :
    (k : ℕ) (v : Text) (vs : List Text)
    → poll_queue (record { limitation = k; data_queue = v ∷ vs })
      ≡ (ok (some v), record { limitation = k; data_queue = vs })
unfolding poll_queue check_space pop_dta
poll_queue-some k v vs = ground arith

poll_queue-Represents :
    (k : ℕ) (d : List Text) (l : Log)
    → Represents (record { limitation = k; data_queue = d }) l
    → (q' : DataQueue) × (poll_queue (record { limitation = k; data_queue = d })
        ≡ (ok (use_log Use.poll l).0, q'))
      × Represents q' (use_log Use.poll l).1
unfolding poll_queue check_space pop_dta
poll_queue-Represents k [] l (past, e, c) =
    rw (e, c, get_elem?-end past)
      (record { limitation = k; data_queue = [] }, refl, (past, refl, refl))
poll_queue-Represents k (v ∷ vs) l (past, e, c) =
    rw (e, c, get_elem?-append_length past vs v)
      (
        record { limitation = k; data_queue = vs },
        poll_queue-some k v vs,
        (
          past ++ v ∷ [],
          sym (append_assoc past (v ∷ []) vs),
          omega (arith, length-append past (v ∷ [])),
        ),
      )

-- Each use of a queue gives what it gives on the log, and keeps the queue and the log together.
use_queue-Represents :
    (u : Use) (q : DataQueue) (l : Log)
    → Represents q l
    → (q' : DataQueue) × (use_queue u q ≡ (ok (use_log u l).0, q')) × Represents q' (use_log u l).1
unfolding use_queue push_dta
use_queue-Represents (Use.push v) q l (past, e, c) = (
  record q { data_queue = q.data_queue ++ v ∷ [] },
  refl,
  (past, ap (λ x. x ++ v ∷ []) e ∙ append_assoc past q.data_queue (v ∷ []), c),
)
use_queue-Represents Use.poll q l h = poll_queue-Represents q.limitation q.data_queue l h

use_all-Represents :
    (us : List Use) (q : DataQueue) (l : Log)
    → Represents q l
    → (q' : DataQueue) × (use_all us q ≡ (ok (log_results us l), q'))
unfolding use_all
use_all-Represents [] q l h = (q, refl)
use_all-Represents (u ∷ us) q l h =
    let (q1, e, h1) = use_queue-Represents u q l h in
    let (q2, e') = use_all-Represents us q1 (use_log u l).1 h1 in
    let r = (use_log u l).0 in
    (
      q2,
      >>=-ok (use_queue u) (λ r. use_all us >>= λ rs. pure (r ∷ rs)) q q1 r e
          ∙ >>=-ok (use_all us) (λ rs. pure (r ∷ rs)) q1 q2 (log_results us (use_log u l).1) e',
    )

-- Whatever pushes and polls are made of a new queue, in any order, each gives what it gives on an
-- empty log: a poll the first text that no poll gave before, or nothing if there is none.
pub use_all-log_results :
    (us : List Use) (limit : ℕ)
    → (use_all us (new_queue limit)).0 ≡ ok (log_results us (record { entries = []; cursor = 0 }))
unfolding new_queue
use_all-log_results us limit =
    let (q, e) =
      use_all-Represents us (new_queue limit) (record { entries = []; cursor = 0 })
        ([], refl, refl) in
    ap (λ p. p.0) e
