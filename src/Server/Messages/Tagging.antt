-- ===== src/Server/Messages/Tagging.antt =====
-- The connection id that `msgRecv` appends to each message.
use inertia_trader.Common.{
  ℕ, ◌≡◌, ◌∙◌, ap, ◌≢◌, false, [], ◌∷◌, ◌++◌, Text, codes, arith, get_elem?,
  get_elem?-append_length, length, some,
}
use inertia_trader.Common.Int.{ℤ}
use inertia_trader.Common.Decimal.{int_to_string, stoi}
use inertia_trader.Common.Decimal.RoundTrip.{
  IsInt, stoi-int_to_string, All-int_to_string, int_to_string-ne-nil,
}
use inertia_trader.Funclib.Split.{contains, split, bar}
use inertia_trader.Funclib.Split.Fields.{join, IsField}
use inertia_trader.Funclib.Split.Laws.{NoNul, split-cut}
use inertia_trader.Funclib.Split.RoundTrip.{split-join}
use inertia_trader.Server.Messages.{tagged}

int_to_string-IsField : (id : ℤ) → IsField bar (int_to_string id)
unfolding contains
int_to_string-IsField id = (
  int_to_string-ne-nil id,
  All-int_to_string (λ c. (contains c bar ≡ false) × (c ≢ 0)) (λ n. ground arith) id (ground arith),
)

-- The fields of a tagged message are those of the message, and the id behind them.
pub split-tagged :
    (m : Text) (id : ℤ) → NoNul m → split (tagged m id) bar ≡ split m bar ++ int_to_string id ∷ []
unfolding join
split-tagged m id clean =
    split-cut m (int_to_string id ++ codes "|") b'|' (omega arith) clean
    ∙ ap (◌++◌ (split m bar)) (split-join (int_to_string id ∷ []) (int_to_string-IsField id, tt))

-- Where a message without a NUL has k fields, the field at index k of the tagged message is read as
-- the id of the sending connection, if that is an `int`.
pub tagged-sender :
    (m : Text) (id : ℤ) (k : ℕ)
    → NoNul m
    → IsInt id
    → length (split m bar) ≡ k
    → (text : Text) × (get_elem? (split (tagged m id) bar) k ≡ some text) × (stoi text ≡ some id)
tagged-sender m id k clean small count = (
  int_to_string id,
  rw (split-tagged m id clean, ← count)
      (get_elem?-append_length (split m bar) [] (int_to_string id)),
  stoi-int_to_string id small,
)
