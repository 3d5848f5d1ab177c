-- ===== src/Connection.antt =====
-- src/InertiaTrader/connection.{h,cpp}: one client's socket. Each method takes its mutex for itself.
pub mod Wire
use inertia_trader.Common.{
  ℕ, ◌+◌, Bool, true, false, not, Option, none, some, List, [], ◌∷◌, ◌++◌, Text, if◌then◌else◌, ltb,
  length, take,
}
use inertia_trader.Common.Int.{ℤ}
use inertia_trader.Common.Action.{Action, Outcome, ok, fault}
use inertia_trader.Funclib.Split.{c_str}

pub record Connection : Type 0 where
  pub connection_socket : ℕ
  pub connection_id : ℤ
  pub recv_status : Bool
  pub login_flag : Bool
  pub username : Text

-- The constructor leaves `login_flag_` as the memory had it.
unfoldable pub new_connection : ℕ → ℤ → Bool → Connection
new_connection socket id unset = record {
  connection_socket = socket;
  connection_id = id;
  recv_status = true;
  login_flag = unset;
  username = [];
}

-- The copy constructor sets two members; the others are as the memory had them, or empty.
unfoldable copy_connection : Connection → ℤ → Bool → Connection
copy_connection rhs unset_id unset = record {
  connection_socket = rhs.connection_socket;
  connection_id = unset_id;
  recv_status = rhs.recv_status;
  login_flag = unset;
  username = [];
}

-- `operator=`, whose test for self-assignment changes nothing
unfoldable assign_connection : Connection → Connection → Connection
assign_connection self rhs = record self {
  connection_socket = rhs.connection_socket;
  recv_status = rhs.recv_status;
}

unfoldable pub set_recv_status : Bool → Connection → Connection
set_recv_status stat c = record c { recv_status = stat }

unfoldable pub set_login_flag : Bool → Connection → Connection
set_login_flag flag c = record c { login_flag = flag }

abbrev pub recvbuflen : ℕ
recvbuflen = 1024

-- `recv`: `none` for a result of 0 or less, else the bytes, at most `recvbuflen` of them. The NUL
-- behind them is written past the end of the buffer if they fill it.
unfoldable pub recvfrom : Option Text → Text → Action Connection (Text × Bool)
recvfrom none str c = (ok (str, false), set_recv_status false c)
recvfrom (some bytes) str c =
    if ltb (length bytes) recvbuflen then (ok (c_str bytes, c.recv_status), c) else (fault, c)

-- `sendto` always transmits 1024 bytes: the text, its NUL and the `memory` behind it.
unfoldable pub sent_bytes : Text → Text → Text
sent_bytes str memory = take recvbuflen (str ++ 0 ∷ memory)

-- The connection after a `send` that succeeded or failed.
unfoldable pub sendto : Bool → Connection → Connection
sendto delivered c = if delivered then c else set_recv_status false c
