-- ===== src/Funclib/InitParser/Section.antt =====
-- What `readLine` reads of a section in a small file, and of the last section, which has no tag behind it.
use inertia_trader.Common.{◌≡◌, refl, some, [], ◌∷◌, codes}
use inertia_trader.Common.Action.{fault}
use inertia_trader.Funclib.InitParser.{new_parser, read_line}

settings :
    (read_line
      (some (codes "[socket]" ∷ codes "port=1203" ∷ codes "[x]" ∷ []))
      (new_parser (codes "socket"))).1.ini_container
    ≡ (codes "port", codes "1203") ∷ []
unfolding read_line new_parser
settings = refl

settings_last :
    (read_line
      (some (codes "[socket]" ∷ codes "port=1203" ∷ codes "[x]" ∷ []))
      (new_parser (codes "x"))).0
    ≡ fault
unfolding read_line new_parser
settings_last = refl
