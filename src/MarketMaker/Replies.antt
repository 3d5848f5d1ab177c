-- ===== src/MarketMaker/Replies.antt =====
-- What the server sends to a client, and the fields of it that the client reads.
use inertia_trader.Common.{
  ℕ, ◌≡◌, refl, sym, ap, ◌∙◌, false, [], ◌∷◌, text_eq, ◌++◌, Text, codes, append_assoc, arith,
}
use inertia_trader.Common.Decimal.{nat_to_string}
use inertia_trader.Funclib.Split.{split, bar, contains}
use inertia_trader.Funclib.Split.Fields.{join, IsField}
use inertia_trader.Funclib.Split.RoundTrip.{split-join-append}

-- The replies to an order, to a cancellation or to a change, and the report of a trade.
pub data Word : Type 0 where
  success repeated insufficient failed executed : Word
  cancelled no_order cancel_error modified not_modified : Word

-- The words that `sendToClient` gets behind the NID, with the line feed that it adds.
abbrev pub word_text : Word → Text
word_text success = codes "success\n"
word_text repeated = codes "failed, repeat nid\n"
word_text insufficient = codes "failed, Insufficient balance\n"
word_text failed = codes "failed\n"
word_text executed = codes "OrderExec\n"
word_text cancelled = codes "cancel order success\n"
word_text no_order = codes "no this order\n"
word_text cancel_error = codes "cancel order error\n"
word_text modified = codes "modify order success\n"
word_text not_modified = codes "no this order, modify failed\n"

-- What the server sends to a client.
pub data Said : Text → Type 0 where
  beat : {msg : Text} → msg ≡ codes "<3&\n" → Said msg
  login : {msg : Text} (n : ℕ) → msg ≡ codes "login|" ++ (nat_to_string n ++ codes "\n") → Said msg
  number : {msg : Text} (n : ℕ) → msg ≡ codes "1234|" ++ (nat_to_string n ++ codes "\n") → Said msg
  price : {msg : Text} (p : Text) → msg ≡ codes "1233|" ++ (p ++ codes "|&\n") → Said msg
  answered :
      {msg : Text} (nid : Text) (w : Word)
      → IsField bar nid
      → msg ≡ nid ++ b'|' ∷ word_text w
      → Said msg

pub reply_fields :
    (nid word : Text)
    → IsField bar nid
    → split word bar ≡ word ∷ []
    → split (nid ++ b'|' ∷ word) bar ≡ nid ∷ word ∷ []
unfolding join
reply_fields nid word field single =
    ap (λ s. split s bar) (sym (append_assoc nid (b'|' ∷ []) word))
    ∙ split-join-append (nid ∷ []) word (field, tt)
    ∙ ap (λ fs. nid ∷ fs) single

-- A text behind a first field.
pub first_field :
    (head rest : Text) → IsField bar head → split (head ++ b'|' ∷ rest) bar ≡ head ∷ split rest bar
unfolding join
first_field head rest field =
    ap (λ s. split s bar) (sym (append_assoc head (b'|' ∷ []) rest))
    ∙ split-join-append (head ∷ []) rest (field, tt)

pub login-IsField : IsField bar (codes "login")
unfolding contains
login-IsField = (
  (λ e. cc),
  (
    (refl, omega arith),
    ((refl, omega arith), ((refl, omega arith), ((refl, omega arith), ((refl, omega arith), tt)))),
  ),
)

pub number-IsField : IsField bar (codes "1234")
unfolding contains
number-IsField = (
  (λ e. cc),
  ((refl, omega arith), ((refl, omega arith), ((refl, omega arith), ((refl, omega arith), tt)))),
)

pub price-IsField : IsField bar (codes "1233")
unfolding contains
price-IsField = (
  (λ e. cc),
  ((refl, omega arith), ((refl, omega arith), ((refl, omega arith), ((refl, omega arith), tt)))),
)

pub beat-split : split (codes "<3&\n") bar ≡ codes "<3&\n" ∷ []
unfolding split
beat-split = refl

-- None of the words is one that the market maker counts.
pub uncounted :
    (w : Word)
    → (text_eq (word_text w) (codes "success") ≡ false)
      × (text_eq (word_text w) (codes "exec") ≡ false)
uncounted success = (refl, refl)
uncounted repeated = (refl, refl)
uncounted insufficient = (refl, refl)
uncounted failed = (refl, refl)
uncounted executed = (refl, refl)
uncounted cancelled = (refl, refl)
uncounted no_order = (refl, refl)
uncounted cancel_error = (refl, refl)
uncounted modified = (refl, refl)
uncounted not_modified = (refl, refl)

pub word_single : (w : Word) → split (word_text w) bar ≡ word_text w ∷ []
unfolding split
word_single success = refl
word_single repeated = refl
word_single insufficient = refl
word_single failed = refl
word_single executed = refl
word_single cancelled = refl
word_single no_order = refl
word_single cancel_error = refl
word_single modified = refl
word_single not_modified = refl
