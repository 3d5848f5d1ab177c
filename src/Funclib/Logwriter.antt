-- ===== src/Funclib/Logwriter.antt =====
-- funclib/logwriter.{h,cpp}: a line of the log. The broken-down local time is a parameter.
pub mod Files
use inertia_trader.Common.{ℕ, zero, suc, ◌+◌, ◌-◌, [], ◌∷◌, ◌++◌, Text, codes, length}
use inertia_trader.Common.Decimal.{nat_to_string}

pub data LogLevel : Type 0 where
  fatal warn error debug trace info : LogLevel

-- `std::tm`
pub record Tm : Type 0 where
  pub tm_year : ℕ
  pub tm_mon : ℕ
  pub tm_mday : ℕ
  pub tm_hour : ℕ
  pub tm_min : ℕ
  pub tm_sec : ℕ

pub record Logwriter : Type 0 where
  pub log_type : Text
  pub log_content : Text
  pub documentation : Text
  pub file_path : Text

zeros : ℕ → Text
zeros zero = []
zeros (suc n) = b'0' ∷ zeros n

-- `std::setw(precision)` with the fill character 0
unfoldable pub to_zero_lead : ℕ → ℕ → Text
unfolding zeros nat_to_string
to_zero_lead value precision =
    zeros (precision - length (nat_to_string value)) ++ nat_to_string value

unfoldable pub date : Tm → Text
unfolding to_zero_lead nat_to_string
date now =
    nat_to_string (now.tm_year + 1900)
    ++ (codes "-" ++ (to_zero_lead (now.tm_mon + 1) 2 ++ (codes "-" ++ to_zero_lead now.tm_mday 2)))

unfoldable pub new_logwriter : Text → Text → Tm → Logwriter
unfolding date
new_logwriter log_type file_path now = record {
  log_type = log_type;
  log_content = [];
  documentation = [];
  file_path = file_path ++ (date now ++ codes ".log");
}

get_time : Tm → Text
unfolding date to_zero_lead
get_time now =
    date now
    ++ (codes " "
        ++ (to_zero_lead now.tm_hour 2
            ++ (codes ":"
                ++ (to_zero_lead now.tm_min 2 ++ (codes ":" ++ to_zero_lead now.tm_sec 2)))))

abbrev label : LogLevel → Text → Text
label fatal log_type = codes " | Fatal | " ++ log_type
label warn log_type = codes " | Warn | " ++ (log_type ++ codes " |")
label error log_type = codes " | Error | " ++ (log_type ++ codes " |")
label debug log_type = codes " | Debug | " ++ (log_type ++ codes " |")
label trace log_type = codes " | Trace | " ++ (log_type ++ codes " |")
label info log_type = codes " | Info | " ++ (log_type ++ codes " |")

-- The new state, and the line that goes to the file `file_path` and to the console.
unfoldable pub write : Tm → LogLevel → Text → Logwriter → Logwriter × Text
unfolding get_time
write now level documentation w =
    let content = get_time now ++ label level w.log_type in
    (
      record w { documentation = documentation; log_content = content },
      content ++ (codes " " ++ documentation),
    )
