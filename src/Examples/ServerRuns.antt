-- ===== src/Examples/ServerRuns.antt =====
-- The server's messages, connections, quotes and logins at concrete inputs.
use inertia_trader.Common.{
  ℕ, ◌≡◌, ◌≢◌, refl, inl, false, none, some, List, [], ◌∷◌, codes, get_elem?, arith,
}
use inertia_trader.Common.Int.{pos}
use inertia_trader.Common.Decimal.{int_to_string, stoi}
use inertia_trader.Common.Map.{lookup, int_key, text_key}
use inertia_trader.Common.Floats.{FloatLaws}
use inertia_trader.Common.Action.{ok, fault}
use inertia_trader.Funclib.Split.{split, bar}
use inertia_trader.Connection.{Connection, set_recv_status, new_connection}
use inertia_trader.Server.{Server, quote_update, send_to_client, set_conn_status}
use inertia_trader.Server.Pointers.Lifecycle.{
  ServerRound, Serves, after_server_round, Serves-send_to_client,
}
use inertia_trader.Server.Messages.{Receiver, msg_recv, msg_handler, tagged, login_msg_handle}
use inertia_trader.Server.Messages.Dispatch.{msg_handler-change_fault}
use inertia_trader.Server.Messages.Tagging.{split-tagged}
use inertia_trader.Server.Messages.Login.{LoginEnds, login_msg_handle-LoginEnds}
use inertia_trader.Server.Sockets.{accept_conn, free_empty_socket, sweep, receiving, Storage}
use inertia_trader.Server.Sockets.Storage.{living, accept_conn-storage, free_empty_socket-living}
use inertia_trader.Server.Messages.Leaving.{msg_recv-lost}
use inertia_trader.Server.Quotes.{AllConsistent, quote_update-AllConsistent}
use inertia_trader.Examples.{tenths, platform, connection, closed_connection, server}

msg_handler-change_fault_example :
    (msg_handler platform (codes "88|5|60|1|1|1|KKC|3|") server).0 ≡ fault
unfolding split stoi
msg_handler-change_fault_example =
    msg_handler-change_fault platform (codes "88|5|60|1|1|1|KKC|3|") (codes "5") (codes "60")
      (pos 60) server refl (inl refl) refl refl refl refl

split-tagged_example :
    split (tagged (codes "87|a|") (pos 3)) bar ≡ codes "87" ∷ codes "a" ∷ codes "3" ∷ []
unfolding split int_to_string
split-tagged_example =
    split-tagged (codes "87|a|") (pos 3)
      (omega arith, (omega arith, (omega arith, (omega arith, (omega arith, tt)))))

login_msg_handle-LoginEnds_example :
    LoginEnds platform
      (codes "ann")
      (codes "pw")
      0
      server
      (login_msg_handle platform (codes "1234|ann|pw|") 0 server)
unfolding split
login_msg_handle-LoginEnds_example =
    login_msg_handle-LoginEnds platform (codes "1234|ann|pw|") 0 server (codes "ann") (codes "pw")
      connection refl refl refl refl refl

accept_conn-storage_example :
    let s' = (accept_conn platform (some 9) server).1 in
    (get_elem? s'.conns 1 ≡ some (new_connection 9 (pos 3) false))
    × (lookup (pos 3) server.conn_storage ≡ none → lookup (pos 3) s'.conn_storage ≡ some (some 1))
    × (lookup (pos 3) server.conn_storage ≢ none → s'.conn_storage ≡ server.conn_storage)
accept_conn-storage_example = accept_conn-storage platform 9 server

-- a dead connection, and a live one behind it
abbrev two_entries : Storage
two_entries = (pos 1, some 0) ∷ (pos 2, some 1) ∷ []

abbrev two_conns : List Connection
two_conns = closed_connection ∷ connection ∷ []

abbrev half_dead : Server ℕ
half_dead = record server { conn_storage = two_entries; conns = two_conns }

free_empty_socket-living_example :
    living two_conns (free_empty_socket half_dead).1.conn_storage ≡ living two_conns two_entries
unfolding free_empty_socket sweep receiving
free_empty_socket-living_example = free_empty_socket-living half_dead refl

-- Two live connections, and both are stored.
abbrev two_clients : Server ℕ
two_clients = record server {
  conns = connection ∷ connection ∷ [];
  conn_storage = (pos 1, some 0) ∷ (pos 2, some 1) ∷ [];
}

abbrev new_receiver : Receiver
new_receiver = record { recv_str = []; temp_str = [] }

-- The client with the greater id leaves.
msg_recv-lost_example :
    msg_recv platform none 1 new_receiver two_clients
    ≡ (fault, record two_clients { conns = connection ∷ set_recv_status false connection ∷ [] })
unfolding receiving set_recv_status
msg_recv-lost_example =
    msg_recv-lost platform 1 new_receiver two_clients connection refl (refl, (refl, tt))

tenths-FloatLaws : FloatLaws tenths
tenths-FloatLaws = record { irrefl = λ a. ground arith; trans = λ a b c p q. ground arith }

quote_update-AllConsistent_example :
    AllConsistent platform (quote_update platform (codes "KKC") 620 server).1.quotes_list
quote_update-AllConsistent_example =
    quote_update-AllConsistent platform (codes "KKC") 620 server tenths-FloatLaws
      (record { above_min = refl; below_max = refl; ordered = refl }, tt)

abbrev new_run : Server ℕ
new_run = record server { conn_storage = []; conns = [] }

Serves-send_to_client_example :
    (send_to_client platform
      (pos 3)
      (codes "a")
      (after_server_round platform (ServerRound.accept_round (some 9)) new_run)).0
    ≡ ok tt
unfolding after_server_round accept_conn set_conn_status
Serves-send_to_client_example =
    Serves-send_to_client platform new_run
      (after_server_round platform (ServerRound.accept_round (some 9)) new_run) (pos 3) 0
      (codes "a") refl (Serves.later (ServerRound.accept_round (some 9)) Serves.start) refl
