-- ===== src/Server/Framing.antt =====
-- `Server::msgRecv`, the part that cuts the received bytes into messages.
pub mod Stream
use inertia_trader.Common.{
  ℕ, Bool, true, false, not, ◌&&◌, Option, none, some, List, [], ◌∷◌, ◌++◌, Text, codes, text_eq,
  is_empty, if◌then◌else◌, split_last, ◌==◌,
}
use inertia_trader.Common.Action.{Outcome, ok, fault}

-- `recvStr` with what was kept in front of it, and what is still kept.
unfoldable pub prepend : Text → Text → Text × Text
prepend temp recv =
    if not (is_empty temp) && not (text_eq recv (codes "<3&"))
    then (temp ++ recv, [])
    else (recv, temp)

-- `recvStr.back()` is undefined for an empty text.
abbrev pub last_byte : Text → Option ℕ
last_byte [] = none
last_byte (c ∷ []) = some c
last_byte (c ∷ d ∷ s) = last_byte (d ∷ s)

abbrev pub but_last : Text → Text
but_last [] = []
but_last (c ∷ []) = []
but_last (c ∷ d ∷ s) = c ∷ but_last (d ∷ s)

-- `subStr` and `tempStr` for a text that does not end with `&`. Where there is no `&` at all,
-- `substr(0, npos)` and `substr(npos + 1)` are both the whole text.
abbrev pub cut : Text → Option (Text × Text) → Text × Text
cut recv none = (recv, recv)
cut recv (some (front, tail)) = (front, tail)

abbrev pub frame_byte : Option ℕ → Text → Text → Outcome (Text × Text)
frame_byte none str kept = fault
frame_byte (some c) str kept =
    if c == b'&' then ok (but_last str, kept) else ok (cut str (split_last b'&' str))

abbrev pub frame_text : Text × Text → Outcome (Text × Text)
frame_text (str, kept) = frame_byte (last_byte str) str kept

-- `subStr` and `tempStr` after one receive.
unfoldable pub frame : Text → Text → Outcome (Text × Text)
unfolding prepend
frame temp recv = frame_text (prepend temp recv)
