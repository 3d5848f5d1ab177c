-- ===== src/Connection/Wire.antt =====
-- What one side receives of what the other side sends.
use inertia_trader.Common.{
  ℕ, zero, suc, ◌+◌, ◌≤◌, ◌<◌, ◌≡◌, refl, some, [], ◌∷◌, ◌++◌, Text, length, take, length-append,
  arith,
}
use inertia_trader.Common.Action.{fault}
use inertia_trader.Funclib.Split.{c_str}
use inertia_trader.Funclib.Split.Laws.{NoNul}
use inertia_trader.Connection.{Connection, recvfrom, sent_bytes, recvbuflen}

c_str-take :
    (n : ℕ) (s memory : Text) → NoNul s → length s < n → c_str (take n (s ++ 0 ∷ memory)) ≡ s
unfolding c_str
c_str-take zero s memory clean h = absurd (omega arith)
c_str-take (suc n) [] memory clean h = refl
c_str-take (suc n) (c ∷ s) memory (nz, clean) h = ground (arith, c_str-take n s memory clean)

-- What `sendto` transmits of a text without a NUL, shorter than the buffer, is the text again behind a
-- receiver's `c_str`, whatever lies in the memory behind it.
pub c_str-sent_bytes :
    (s memory : Text) → NoNul s → length s < recvbuflen → c_str (sent_bytes s memory) ≡ s
unfolding sent_bytes
c_str-sent_bytes s memory clean h = c_str-take recvbuflen s memory clean h

take-long : (n : ℕ) (s : Text) → n ≤ length s → n ≤ length (take n s)
take-long zero s h = omega arith
take-long (suc n) [] h = absurd (omega arith)
take-long (suc n) (c ∷ s) h = omega (arith, take-long n s (omega arith))

-- A receiver whose whole buffer is filled, as `sendto` always does, writes past its end.
recvfrom-full :
    (bytes str : Text) (c : Connection)
    → recvbuflen ≤ length bytes
    → recvfrom (some bytes) str c ≡ (fault, c)
unfolding recvfrom
recvfrom-full bytes str c h = ground arith

-- So it does with all that `sendto` transmits, if it comes in one piece: with the memory behind it
-- the text is long enough to fill the buffer.
pub recvfrom-sent_bytes :
    (s memory str : Text) (c : Connection)
    → recvbuflen ≤ length s + length memory
    → recvfrom (some (sent_bytes s memory)) str c ≡ (fault, c)
unfolding sent_bytes
recvfrom-sent_bytes s memory str c h =
    recvfrom-full (sent_bytes s memory) str c
      (take-long recvbuflen (s ++ 0 ∷ memory) (omega (arith, length-append s (0 ∷ memory))))
