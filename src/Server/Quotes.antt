-- ===== src/Server/Quotes.antt =====
-- `Server::quoteUpdate`: the price of the day and its extremes.
use inertia_trader.Common.{◌≡◌, refl, false, Option, none, some, [], ◌∷◌, Text, arith}
use inertia_trader.Common.Map.{Map, lookup, replace, place, text_key}
use inertia_trader.Common.Floats.{FloatLaws}
use inertia_trader.Platform.{Platform}
use inertia_trader.Types.{Stock}
use inertia_trader.Server.{Server, updated_stock, quote_update, quote_at}

module _ {N : Type 0} (P : Platform N) where
  -- No two of the prices are in the wrong order.
  pub record IsConsistent (st : Stock N) : Type 0 where
    pub above_min : P.lt st.price_now st.price_min ≡ false
    pub below_max : P.lt st.price_max st.price_now ≡ false
    pub ordered : P.lt st.price_max st.price_min ≡ false

  updated_stock-IsConsistent :
      (p : N) (st : Stock N)
      → FloatLaws P.floats
      → IsConsistent st
      → IsConsistent (updated_stock P p st)
  unfolding updated_stock
  updated_stock-IsConsistent p st laws c =
      ground (arith, laws.irrefl p, laws.trans st.price_max p st.price_min)

  -- Every stock that the list holds is consistent.
  abbrev pub AllConsistent : Map Text (Option (Stock N)) → Type 0
  AllConsistent [] = Unit
  AllConsistent ((name, none) ∷ m) = AllConsistent m
  AllConsistent ((name, some st) ∷ m) = IsConsistent st × AllConsistent m

  lookup-IsConsistent :
      (name : Text) (st : Stock N) (m : Map Text (Option (Stock N)))
      → AllConsistent m
      → lookup name m ≡ some (some st)
      → IsConsistent st
  lookup-IsConsistent name st [] c h = cc
  lookup-IsConsistent name st ((j, none) ∷ m) c h = ground (arith, lookup-IsConsistent name st m c)
  lookup-IsConsistent name st ((j, some s) ∷ m) c h =
      ground (arith, lookup-IsConsistent name st m c.1)

  replace-AllConsistent :
      (name : Text) (st : Stock N) (m : Map Text (Option (Stock N)))
      → IsConsistent st
      → AllConsistent m
      → AllConsistent (replace name (some st) m)
  replace-AllConsistent name st [] h c = tt
  replace-AllConsistent name st ((j, none) ∷ m) h c =
      ground (arith, replace-AllConsistent name st m h c)
  replace-AllConsistent name st ((j, some s) ∷ m) h c =
      ground (arith, replace-AllConsistent name st m h c.1)

  place-AllConsistent :
      (name : Text) (m : Map Text (Option (Stock N)))
      → AllConsistent m
      → AllConsistent (place name none m)
  place-AllConsistent name [] c = tt
  place-AllConsistent name ((j, none) ∷ m) c = ground (arith, place-AllConsistent name m c)
  place-AllConsistent name ((j, some s) ∷ m) c = ground (arith, place-AllConsistent name m c.1)

  quote_update_cases :
      (name : Text) (p : N) (s : Server N) (found : Option (Option (Stock N)))
      → lookup name s.quotes_list ≡ found
      → FloatLaws P.floats
      → AllConsistent s.quotes_list
      → AllConsistent (quote_update P name p s).1.quotes_list
  unfolding quote_update quote_at
  quote_update_cases name p s none e laws c =
      ground (arith, e, place-AllConsistent name s.quotes_list c)
  quote_update_cases name p s (some none) e laws c = ground (arith, e)
  quote_update_cases name p s (some (some st)) e laws c = ground (
    arith,
    e,
    replace-AllConsistent name (updated_stock P p st) s.quotes_list
        (updated_stock-IsConsistent p st laws (lookup-IsConsistent name st s.quotes_list c e)) c,
  )

  -- Every update keeps the quotes consistent, also one of a name that is not quoted.
  pub quote_update-AllConsistent :
      (name : Text) (p : N) (s : Server N)
      → FloatLaws P.floats
      → AllConsistent s.quotes_list
      → AllConsistent (quote_update P name p s).1.quotes_list
  quote_update-AllConsistent name p s laws c =
      quote_update_cases name p s (lookup name s.quotes_list) refl laws c
