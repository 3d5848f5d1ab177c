-- ===== src/Funclib/DataQueue/Order.antt =====
-- Sequences of pushes and pops on a `DataQueue` (funclib/dataQueue.cpp), and its limit.
use inertia_trader.Common.{
  ℕ, ◌+◌, ◌≡◌, refl, sym, ◌∙◌, ap, List, [], ◌∷◌, ◌++◌, Text, length, length-append, arith,
  append_assoc, append-nil,
}
use inertia_trader.Common.Action.{Outcome, ok}
use inertia_trader.Funclib.DataQueue.{DataQueue, push_dta, pop_dta, check_space}

abbrev pub push_all : List Text → DataQueue → DataQueue
push_all [] q = q
push_all (v ∷ vs) q = push_all vs (push_dta v q).1

-- A pop for each entry of the list: the results, and the queue after them.
abbrev pub pop_all : List Text → DataQueue → List (Outcome Text) × DataQueue
pop_all [] q = ([], q)
pop_all (v ∷ vs) q = let (r, q1) = pop_dta q in let (rs, q2) = pop_all vs q1 in (r ∷ rs, q2)

abbrev all_ok : List Text → List (Outcome Text)
all_ok [] = []
all_ok (v ∷ vs) = ok v ∷ all_ok vs

push_all-contents :
    (vs : List Text) (q : DataQueue) → push_all vs q ≡ record q { data_queue = q.data_queue ++ vs }
unfolding push_dta
push_all-contents [] q = λ i. record q { data_queue = sym (append-nil q.data_queue) i }
push_all-contents (v ∷ vs) q =
    push_all-contents vs (record q { data_queue = q.data_queue ++ v ∷ [] }) ∙ λ i. record q {
      data_queue = append_assoc q.data_queue (v ∷ []) vs i;
    }

pop_all-contents :
    (vs ws : List Text) (limit : ℕ)
    → pop_all vs (record { limitation = limit; data_queue = vs ++ ws })
      ≡ (all_ok vs, record { limitation = limit; data_queue = ws })
unfolding pop_dta
pop_all-contents [] ws limit = refl
pop_all-contents (v ∷ vs) ws limit = ground (arith, pop_all-contents vs ws limit)

-- Whatever the queue held comes out first, then the pushed values in their order, and nothing is
-- left.
pub pop_all-push_all :
    (vs : List Text) (q : DataQueue)
    → pop_all (q.data_queue ++ vs) (push_all vs q)
      ≡ (all_ok (q.data_queue ++ vs), record q { data_queue = [] })
pop_all-push_all vs q =
    ap (pop_all (q.data_queue ++ vs)) (
      push_all-contents vs q ∙ λ i. record q {
        data_queue = sym (append-nil (q.data_queue ++ vs)) i;
      })
    ∙ pop_all-contents (q.data_queue ++ vs) [] q.limitation

-- After any pushes the queue holds them all, whatever its limit is.
pub check_space-push_all :
    (vs : List Text) (q : DataQueue) → check_space (push_all vs q) ≡ check_space q + length vs
unfolding check_space
check_space-push_all vs q = rw (push_all-contents vs q) (length-append q.data_queue vs)
