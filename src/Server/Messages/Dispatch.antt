-- ===== src/Server/Messages/Dispatch.antt =====
-- Where `msgHandler` puts a message.
use inertia_trader.Common.{
  ◌≡◌, refl, ap, ◌∙◌, ◌⊎◌, inl, inr, false, none, some, [], ◌∷◌, ◌++◌, Text, codes, text_eq, take,
  up_to, get_elem?, Bool-cases,
}
use inertia_trader.Common.Int.{ℤ, pos}
use inertia_trader.Common.Decimal.{stoi}
use inertia_trader.Common.Map.{lookup, text_key}
use inertia_trader.Common.Action.{fault}
use inertia_trader.Common.Action.Laws.{>>=-fault, catching-fault, or_throw->>=, or_fault->>=}
use inertia_trader.Platform.{Platform}
use inertia_trader.Funclib.Split.{split, bar}
use inertia_trader.Funclib.DataQueue.{push_dta}
use inertia_trader.Server.{Server, quote_at}
use inertia_trader.Server.Messages.{
  quote_arguments, answer_price, ask_price, dispatch, route, msg_handler,
}

module _ {N : Type 0} (P : Platform N) where
  quote_at-none :
      (name : Text) (s : Server N) → lookup name s.quotes_list ≡ none → (quote_at name s).0 ≡ fault
  unfolding quote_at
  quote_at-none name s miss = rw (miss, quote_at) refl

  -- A price question about a name that is not quoted, in either order of evaluation.
  quote_arguments-fault :
      (name id : Text) (conn : ℤ) (s : Server N)
      → stoi id ≡ some conn
      → lookup name s.quotes_list ≡ none
      → (quote_arguments P name id s).0 ≡ fault
  unfolding quote_arguments
  quote_arguments-fault name id conn s e miss = elim (Bool-cases P.right_to_left) [
    | inl r ↦ rw (r, quote_arguments, >>=-fault (quote_at name) _ s (quote_at-none name s miss))
    | inr r ↦ rw (
      r,
      quote_arguments,
      or_throw->>= _ s e,
      >>=-fault (quote_at name) _ s (quote_at-none name s miss),
    )
  ]

  answer_price-fault :
      (msg name id : Text) (conn : ℤ) (s : Server N)
      → get_elem? (split msg bar) 1 ≡ some name
      → get_elem? (split msg bar) 2 ≡ some id
      → stoi id ≡ some conn
      → lookup name s.quotes_list ≡ none
      → (answer_price P msg s).0 ≡ fault
  unfolding answer_price
  answer_price-fault msg name id conn s has1 has2 e miss = rw (
    answer_price,
    or_fault->>= _ s has1,
    or_fault->>= _ s has2,
    >>=-fault (quote_arguments P name id) _ s (quote_arguments-fault name id conn s e miss),
  )

  abbrev queued : Text → Server N → Server N
  queued msg s = record s {
    dq_orderhandle = record (s.dq_orderhandle) {
      data_queue = s.dq_orderhandle.data_queue ++ msg ∷ [];
    };
  }

  route-change :
      (msg : Text) (s : Server N)
      → (stoi (up_to b'|' msg) ≡ some (pos 88)) ⊎ (stoi (up_to b'|' msg) ≡ some (pos 89))
      → route P msg s ≡ ask_price P msg (queued msg s)
  unfolding route dispatch push_dta
  route-change msg s (inl code) = rw (route, or_throw->>= _ s code)
  route-change msg s (inr code) = rw (route, or_throw->>= _ s code)

  -- A cancellation or a change: it is queued, and then read as a price question, with the NID for
  -- the name. Unless the NID is quoted, the answer dereferences a null pointer.
  pub msg_handler-change_fault :
      (msg nid price : Text) (conn : ℤ) (s : Server N)
      → text_eq (take 2 msg) (codes "<3") ≡ false
      → (stoi (up_to b'|' msg) ≡ some (pos 88)) ⊎ (stoi (up_to b'|' msg) ≡ some (pos 89))
      → get_elem? (split msg bar) 1 ≡ some nid
      → get_elem? (split msg bar) 2 ≡ some price
      → stoi price ≡ some conn
      → lookup nid s.quotes_list ≡ none
      → (msg_handler P msg s).0 ≡ fault
  unfolding msg_handler ask_price
  msg_handler-change_fault msg nid price conn s beat code has1 has2 e miss = rw beat (
      catching-fault (route P msg) s (
        ap (λ r. r.0) (route-change msg s code)
        ∙ catching-fault (answer_price P msg) (queued msg s)
            (answer_price-fault msg nid price conn (queued msg s) has1 has2 e miss)))
