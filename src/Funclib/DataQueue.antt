-- ===== src/Funclib/DataQueue.antt =====
-- funclib/dataQueue.{h,cpp}: the queues between the receiving threads and the trader. A call runs
-- under the queue's mutex, so it is one step; the state of `pop_dta` is the one at the end of its
-- wait, when the queue is no longer empty or one second is over.
pub mod Order
pub mod Log
use inertia_trader.Common.{ℕ, ◌+◌, List, [], ◌∷◌, ◌++◌, Text, length}
use inertia_trader.Common.Action.{Action, Outcome, ok, fault}

pub record DataQueue : Type 0 where
  pub limitation : ℕ
  pub data_queue : List Text

unfoldable pub new_queue : ℕ → DataQueue
new_queue limitation = record { limitation = limitation; data_queue = [] }

unfoldable pub push_dta : Text → Action DataQueue (Unit {0})
push_dta val q = (ok tt, record q { data_queue = q.data_queue ++ val ∷ [] })

-- `front` and `pop` of an empty `std::queue` are undefined.
pop_from : List Text → Action DataQueue Text
pop_from [] q = (fault, q)
pop_from (val ∷ rest) q = (ok val, record q { data_queue = rest })

unfoldable pub pop_dta : Action DataQueue Text
unfolding pop_from
pop_dta q = pop_from q.data_queue q

unfoldable pub check_space : DataQueue → ℕ
check_space q = length q.data_queue
