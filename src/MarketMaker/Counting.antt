-- ===== src/MarketMaker/Counting.antt =====
-- What the market maker counts of what the server sends.
use inertia_trader.Common.{
  ℕ, ◌+◌, ◌≡◌, sym, ap, ◌∙◌, subst, Bool, true, false, some, List, [], ◌∷◌, ◌++◌, Text, codes,
  text_eq, get_elem?, take, if◌then◌else◌,
}
use inertia_trader.Common.Int.{ℤ, pos, int_eq}
use inertia_trader.Common.Decimal.{stoi, nat_to_string}
use inertia_trader.Common.Floats.{Floats}
use inertia_trader.Common.Action.{
  Action, Outcome, ok, throws, fault, ◌>>=◌, pure, or_fault, or_throw, modify, catching,
}
use inertia_trader.Common.Action.Triple.{
  Preserves, Preserves->>=, Preserves-or_fault, Preserves-or_throw, Preserves-modify,
  Preserves-pure, Preserves-if,
}
use inertia_trader.Funclib.Split.{split, bar}
use inertia_trader.MarketMaker.{Client, on_message, read_message, msg_handler}
use inertia_trader.MarketMaker.Replies.{
  Word, uncounted, word_text, Said, word_single, reply_fields, first_field, login-IsField,
  number-IsField, price-IsField, beat-split,
}

-- What a client counts, its limits, and what it has sent.
pub record Counts : Type 0 where
  pub orders : ℕ
  pub order_limit : ℕ
  pub trades : ℕ
  pub trade_limit : ℕ
  pub sent : List Text

module _ {N : Type 0} where
  abbrev pub counts : Client N → Counts
  counts c = record {
    orders = c.order_num;
    order_limit = c.order_limitation;
    trades = c.inventory_num;
    trade_limit = c.inventory_limit;
    sent = c.sent;
  }

  abbrev Counted : Counts → Client N → Type 0
  Counted k c = counts c ≡ k

module _ {N : Type 0} (F : Floats N) (k : Counts) where
  abbrev price_branch : List Text → Action (Client N) (Unit {0})
  price_branch temp = or_fault (get_elem? temp 1) >>= λ text.
      or_throw (F.stod text) >>= λ price. modify (λ c. record c { price_now = some price })

  price_branch-Counted : (temp : List Text) → Preserves (Counted k) (price_branch temp)
  price_branch-Counted temp = Preserves->>= (Preserves-or_fault (get_elem? temp 1)) λ text.
      Preserves->>= (Preserves-or_throw (F.stod text))
        λ price. Preserves-modify (λ c. record c { price_now = some price }) (λ c e. e)

  login-Counted : Preserves (Counted {N = N} k) (modify (λ c. record c { login_flag = true }))
  login-Counted = Preserves-modify (λ c. record c { login_flag = true }) (λ c e. e)

  on_message-price : (temp : List Text) → Preserves (Counted k) (on_message F (pos 1233) temp)
  unfolding on_message
  on_message-price temp = price_branch-Counted temp

  on_message-number : (temp : List Text) → Preserves (Counted k) (on_message F (pos 1234) temp)
  unfolding on_message
  on_message-number temp = login-Counted

  -- A reply of the server counts for nothing, whatever the number of the order is.
  on_message-reply :
      (code : ℤ) (nid : Text) (w : Word)
      → Preserves (Counted k) (on_message F code (nid ∷ word_text w ∷ []))
  unfolding on_message
  on_message-reply code nid w =
      Preserves-if (int_eq code (pos 1233)) (price_branch-Counted (nid ∷ word_text w ∷ [])) (
        Preserves-if (int_eq code (pos 1234)) login-Counted (
          others (text_eq (word_text w) (codes "success")) (text_eq (word_text w) (codes "exec"))
            (uncounted w).0 (uncounted w).1))
    where
      others :
          (a b : Bool)
          → a ≡ false
          → b ≡ false
          → Preserves (Counted {N = N} k) (
              or_fault (some (word_text w)) >>= λ text.
              if a
              then modify (λ c. record c { order_num = c.order_num + 1 })
              else if b
              then modify (λ c. record c { inventory_num = c.inventory_num + 1 })
              else pure tt)
      others true b e _ = cc
      others false true _ e = cc
      others false false _ _ = record { keeps = λ c e. e }

module _ {N : Type 0} (F : Floats N) (k : Counts) where
  -- What a message does, by its fields.
  abbrev read_fields : List Text → Action (Client N) (Unit {0})
  read_fields fs = or_fault (get_elem? fs 0) >>= λ code_text.
      or_throw (stoi code_text) >>= λ code. on_message F code fs

  read_message-fields :
      (msg : Text) (fs : List Text)
      → split msg bar ≡ fs
      → Preserves (Counted k) (read_fields fs)
      → Preserves (Counted k) (read_message F msg)
  unfolding read_message
  read_message-fields msg fs e keeps =
      subst (λ x. Preserves (Counted k) (read_fields x)) (sym e) keeps

  fields-beat : Preserves (Counted k) (read_fields (codes "<3&\n" ∷ []))
  unfolding stoi
  fields-beat = record { keeps = λ c e. e }

  fields-number : (rest : List Text) → Preserves (Counted k) (read_fields (codes "1234" ∷ rest))
  unfolding stoi
  fields-number rest = record { keeps = (on_message-number F k (codes "1234" ∷ rest)).keeps }

  fields-price : (rest : List Text) → Preserves (Counted k) (read_fields (codes "1233" ∷ rest))
  unfolding stoi
  fields-price rest = record { keeps = (on_message-price F k (codes "1233" ∷ rest)).keeps }

  fields-login : (rest : List Text) → Preserves (Counted k) (read_fields (codes "login" ∷ rest))
  unfolding stoi
  fields-login rest = record { keeps = λ c e. e }

  fields-reply :
      (nid : Text) (w : Word) → Preserves (Counted k) (read_fields (nid ∷ word_text w ∷ []))
  fields-reply nid w = Preserves->>= (Preserves-or_fault (some nid)) λ code_text.
      Preserves->>= (Preserves-or_throw (stoi code_text)) λ code. on_message-reply F k code nid w

  read_message-Said : (msg : Text) → Said msg → Preserves (Counted k) (read_message F msg)
  read_message-Said msg (Said.beat e) =
      read_message-fields msg (codes "<3&\n" ∷ []) (ap (λ s. split s bar) e ∙ beat-split)
        fields-beat
  read_message-Said msg (Said.login n e) =
      read_message-fields msg (codes "login" ∷ split (nat_to_string n ++ codes "\n") bar)
        (ap (λ s. split s bar) e
          ∙ first_field (codes "login") (nat_to_string n ++ codes "\n") login-IsField)
        (fields-login (split (nat_to_string n ++ codes "\n") bar))
  read_message-Said msg (Said.number n e) =
      read_message-fields msg (codes "1234" ∷ split (nat_to_string n ++ codes "\n") bar)
        (ap (λ s. split s bar) e
          ∙ first_field (codes "1234") (nat_to_string n ++ codes "\n") number-IsField)
        (fields-number (split (nat_to_string n ++ codes "\n") bar))
  read_message-Said msg (Said.price p e) =
      read_message-fields msg (codes "1233" ∷ split (p ++ codes "|&\n") bar)
        (ap (λ s. split s bar) e ∙ first_field (codes "1233") (p ++ codes "|&\n") price-IsField)
        (fields-price (split (p ++ codes "|&\n") bar))
  read_message-Said msg (Said.answered nid w field e) =
      read_message-fields msg (nid ∷ word_text w ∷ [])
        (ap (λ s. split s bar) e ∙ reply_fields nid (word_text w) field (word_single w))
        (fields-reply nid w)

module _ {N : Type 0} (F : Floats N) (k : Counts) where
  Preserves-catching :
      (m : Action (Client N) (Unit {0}))
      → Preserves (Counted k) m
      → Preserves (Counted k) (catching m)
  Preserves-catching m h = record { keeps = λ c e. after (m c) (h.keeps c e) }
    where
      after :
          (p : Outcome (Unit {0}) × Client N)
          → counts p.1 ≡ k
          → counts
              (elim p.0 as (λ _. Outcome (Unit {0}) × Client N) [
                | ok a ↦ (ok tt, p.1)
                | throws ↦ (ok tt, p.1)
                | fault ↦ (fault, p.1)
              ]).1
            ≡ k
      after (ok a, c) e = e
      after (throws, c) e = e
      after (fault, c) e = e

  pub msg_handler-Said : (msg : Text) → Said msg → Preserves (Counted k) (msg_handler F msg)
  unfolding msg_handler
  msg_handler-Said msg said =
      Preserves-if (text_eq (take 2 msg) (codes "<3")) (Preserves-pure tt)
        (Preserves-catching (read_message F msg) (read_message-Said F k msg said))
