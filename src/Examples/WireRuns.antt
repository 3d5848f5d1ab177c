-- ===== src/Examples/WireRuns.antt =====
-- The framing, the queues, the texts and the connections at concrete inputs.
use inertia_trader.Common.{
  take, ℕ, zero, suc, ◌≡◌, refl, true, false, none, some, List, [], ◌∷◌, ◌++◌, Text, codes, arith,
}
use inertia_trader.Common.Action.{ok, fault}
use inertia_trader.Funclib.Split.{split, contains, c_str, bar, amp}
use inertia_trader.Funclib.Split.Fields.{fields, join}
use inertia_trader.Funclib.Split.Laws.{split-fields}
use inertia_trader.Funclib.Split.RoundTrip.{split-join}
use inertia_trader.Funclib.InitParser.{
  InitParser, new_parser, read_line, is_tag, names_target, is_infix, is_prefix,
}
use inertia_trader.Funclib.InitParser.Scan.{file_of}
use inertia_trader.Funclib.InitParser.Reads.{assign_all, read_line-Section, read_line-last}
use inertia_trader.Funclib.Logwriter.{Tm, new_logwriter, date}
use inertia_trader.Funclib.Logwriter.Files.{new_logwriter-file_path}
use inertia_trader.Server.Framing.Stream.{receive_all, stream, receive_all-stream}
use inertia_trader.Connection.{sent_bytes}
use inertia_trader.Database.Handler.{connect_loop}
use inertia_trader.Database.Handler.Attempts.{LoopEnds, connect_loop-LoopEnds}
use inertia_trader.MarketMaker.{
  Client, ConnectCalls, new_client, recv_msg, start_trading_process, msg_handler,
}
use inertia_trader.MarketMaker.Hearing.{recv_msg-sent_bytes}
use inertia_trader.Examples.{tenths, platform}

split-fields_example :
    split (codes "a||b|") (codes "|") ≡ fields (c_str (codes "|")) (c_str (codes "a||b|"))
split-fields_example = split-fields (codes "a||b|") (codes "|")

split-join_example :
    split (join b'|' (codes "87" ∷ codes "K" ∷ [])) bar ≡ codes "87" ∷ codes "K" ∷ []
unfolding contains
split-join_example = split-join (codes "87" ∷ codes "K" ∷ []) (
  ((λ e. cc), ((refl, omega arith), ((refl, omega arith), tt))),
  (((λ e. cc), ((refl, omega arith), tt)), tt),
)

receive_all-stream_example :
    (ms : List Text) × (t : Text) × (receive_all (codes "8") (codes "7&8" ∷ codes "8&" ∷ [])
      ≡ ok (ms, t))
    × (split (codes "8" ++ stream (codes "7&8" ∷ codes "8&" ∷ [])) amp ≡ ms ++ split t amp)
    × (contains b'&' t ≡ false)
unfolding contains
receive_all-stream_example =
    receive_all-stream (codes "8") (codes "7&8" ∷ codes "8&" ∷ []) (omega arith, tt) refl
      (
        (refl, refl, (omega arith, (omega arith, (omega arith, tt)))),
        ((refl, refl, (omega arith, (omega arith, tt))), tt),
      )

-- as many bytes as a number says
abbrev filled : ℕ → Text
filled zero = []
filled (suc n) = 7 ∷ filled n

abbrev settings : List Text
settings = codes "[MariaDB]" ∷ codes "addr=db" ∷ codes "[end]" ∷ []

abbrev settings_read : InitParser
settings_read = record {
  ini_container = (codes "addr", codes "db") ∷ [];
  tag_line_num = 1 ∷ 3 ∷ [];
  start_pos = 1;
  end_pos = 3;
  target = codes "MariaDB";
}

read_line-settings :
    read_line (some settings) (new_parser (codes "MariaDB")) ≡ (ok tt, settings_read)
unfolding read_line new_parser
read_line-settings = refl

connect_loop-LoopEnds_example :
    LoopEnds platform
      (some settings)
      (codes "MariaDB")
      settings_read
      (read_line-settings)
      6
      0
      (connect_loop platform (some settings) (codes "MariaDB") 6 0)
connect_loop-LoopEnds_example =
    connect_loop-LoopEnds platform (some settings) (codes "MariaDB") settings_read
      read_line-settings 6 0

abbrev port_settings : List Text
port_settings = codes "[MariaDB]" ∷ codes "port=8700" ∷ codes "[end]" ∷ []

abbrev refused : ConnectCalls
refused = record {
  settings = some port_settings;
  socket_ok = true;
  address_ok = true;
  connect_ok = false;
}

abbrev lost_client : Client ℕ
lost_client = record {
  conn_calculate = 0;
  price_now = none;
  order_num = 0;
  order_limitation = 10;
  login_flag = true;
  inventory_limit = 10;
  inventory_num = 0;
  exit_flag = false;
  first_conn_flag = false;
  conn_status = false;
  ip = new_parser (codes "MariaDB");
  sent = [];
}

recv_msg-sent_bytes_example :
    recv_msg tenths
      (some (take 9 (sent_bytes (codes "<3&\n") (filled 1024))))
      (λ n. refused)
      4
      lost_client
    ≡ msg_handler tenths (codes "<3&\n") lost_client
recv_msg-sent_bytes_example =
    recv_msg-sent_bytes tenths (codes "<3&\n") (filled 1024) 9 (λ n. refused) 4 lost_client
      (omega arith, (omega arith, (omega arith, (omega arith, tt)))) (omega arith) (omega arith)

-- A round of trading, and the reply to its first order.
abbrev told_client : Client ℕ
told_client =
    (recv_msg tenths (some (codes "313542|success\n")) (λ n. refused) 4
      (start_trading_process (new_client (codes "MariaDB")))).1

-- src/doc/settings.ini, from its third section on, and the lines of its sections
abbrev database_lines : List Text
database_lines =
    codes "addr=192.168.56.105"
    ∷ codes "user=root"
    ∷ codes "port=3306"
    ∷ codes "password=Aa1234"
    ∷ codes "database=stock"
    ∷ []
    ∷ []

abbrev test_lines : List Text
test_lines =
    codes "addr=172.28.0.3"
    ∷ codes "user=root"
    ∷ codes "port=3306"
    ∷ codes "password=Aa1234"
    ∷ codes "database=stock"
    ∷ []

read_line-Section_example :
    let result =
      read_line
        (some (
          file_of
            (codes "[socket]" ∷ codes "addr=127.0.0.1" ∷ [])
            (codes "[database]")
            database_lines
            (codes "[Testdatabase]" ∷ test_lines)))
        (new_parser (codes "database")) in
    (result.0 ≡ ok tt) × (result.1.ini_container ≡ assign_all database_lines [])
unfolding is_tag names_target is_infix is_prefix
read_line-Section_example =
    read_line-Section (codes "database") (codes "[socket]" ∷ codes "addr=127.0.0.1" ∷ [])
      (codes "[database]") database_lines (codes "[Testdatabase]") test_lines
      (record {
        others_before = (refl, (refl, tt));
        head_tag = refl;
        head_names = refl;
        body_plain = (
          (refl, refl),
          ((refl, refl), ((refl, refl), ((refl, refl), ((refl, refl), ((refl, refl), tt))))),
        );
        others_behind = (refl, (refl, (refl, (refl, (refl, (refl, tt))))));
      })
      refl

read_line-last_example :
    (read_line
      (some (file_of (codes "[database]" ∷ database_lines) (codes "[Testdatabase]") test_lines []))
      (new_parser (codes "Testdatabase"))).0
    ≡ fault
unfolding is_tag names_target is_infix is_prefix
read_line-last_example =
    read_line-last (codes "Testdatabase") (codes "[database]" ∷ database_lines)
      (codes "[Testdatabase]") test_lines
      (record {
        others_before = (refl, (refl, (refl, (refl, (refl, (refl, (refl, tt)))))));
        head_tag = refl;
        head_names = refl;
        body_plain =
            ((refl, refl), ((refl, refl), ((refl, refl), ((refl, refl), ((refl, refl), tt)))));
        others_behind = tt;
      })

-- Two times of one day.
abbrev morning : Tm
morning = record { tm_year = 121; tm_mon = 8; tm_mday = 6; tm_hour = 9; tm_min = 0; tm_sec = 5 }

abbrev evening : Tm
evening = record morning { tm_hour = 21 }

new_logwriter-file_path_example :
    (morning.tm_year ≡ evening.tm_year)
    × (morning.tm_mon ≡ evening.tm_mon)
    × (morning.tm_mday ≡ evening.tm_mday)
unfolding new_logwriter date
new_logwriter-file_path_example =
    new_logwriter-file_path (codes "Trader") (codes "Trader") (codes "log/") morning evening
      (record { year = omega arith; month = omega arith; day = omega arith })
      (record { year = omega arith; month = omega arith; day = omega arith }) refl
