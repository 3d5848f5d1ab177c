-- ===== src/Platform.antt =====
-- What the program calls and does not implement, as parameters: floating-point numbers, the MariaDB
-- client, the sockets, `rand`, and what the C++ standard leaves open.
use inertia_trader.Common.{ℕ, Bool, Option, List, Text}
use inertia_trader.Common.Floats.{Floats}

pub record Platform (N : Type 0) : Type 0 where
  pub floats : Floats N
  pub open floats use *
  -- `mysql_query(conn, command) == 0`, by the commands that were sent before
  pub accepts : List Text → Text → Bool
  -- the rows that `mysql_store_result` and `mysql_fetch_row` give, or a null result
  pub rows : List Text → Text → Option (List (List Text))
  -- `mysql_real_connect` to a host, as a user, to a database: whether the n-th attempt succeeds
  pub connects : ℕ → Text → Text → Text → Bool
  -- `send(socket, text) >= 0`, by what was sent before
  pub delivers : List (ℕ × Text) → ℕ → Text → Bool
  -- the n-th value of `rand()`
  pub rand : ℕ → ℕ
  -- `login_flag_` of the n-th connection, which its constructor does not set
  pub unset_flag : ℕ → Bool
  -- whether the arguments of a call are evaluated from the right
  pub right_to_left : Bool
  -- the answer to a comparison of two iterators that belong to different vectors
  pub foreign_end : Bool
