-- ===== src/MarketMaker/Hearing.antt =====
-- What the market maker handles of the bytes that the server transmits (src/MarketMaker/client.cpp,
-- src/InertiaTrader/connection.cpp).
use inertia_trader.Common.{
  ℕ, zero, suc, ◌≤◌, ◌<◌, ◌≡◌, refl, true, some, [], ◌∷◌, ◌++◌, Text, length, take, ltb, arith,
}
use inertia_trader.Common.Floats.{Floats}
use inertia_trader.Funclib.Split.{c_str}
use inertia_trader.Funclib.Split.Laws.{NoNul}
use inertia_trader.Connection.{sent_bytes, recvbuflen}
use inertia_trader.MarketMaker.{Client, ConnectCalls, msg_handler, recv_msg}

c_str-take-take :
    (k m : ℕ) (s memory : Text)
    → NoNul s
    → length s < k
    → length s < m
    → c_str (take k (take m (s ++ 0 ∷ memory))) ≡ s
unfolding c_str
c_str-take-take zero m s memory clean h l = absurd (omega arith)
c_str-take-take (suc k) zero s memory clean h l = absurd (omega arith)
c_str-take-take (suc k) (suc m) [] memory clean h l = refl
c_str-take-take (suc k) (suc m) (c ∷ s) memory (nz, clean) h l =
    ground (arith, c_str-take-take k m s memory clean)

length-take-le : (k : ℕ) (s : Text) → length (take k s) ≤ k
length-take-le zero s = omega arith
length-take-le (suc k) [] = omega arith
length-take-le (suc k) (c ∷ s) = omega (arith, length-take-le k s)

-- A text without a NUL that the server sends, whatever lies in the memory behind it, is handled by the
-- market maker as that text, if one receive brings all of it and one byte more, and does not fill
-- the buffer.
pub recv_msg-sent_bytes :
    {N : Type 0} (F : Floats N) (text memory : Text) (k : ℕ) (calls : ℕ → ConnectCalls) (fuel : ℕ)
    (c : Client N)
    → NoNul text
    → length text < k
    → k < recvbuflen
    → recv_msg F (some (take k (sent_bytes text memory))) calls fuel c ≡ msg_handler F text c
unfolding recv_msg sent_bytes
recv_msg-sent_bytes F text memory k calls fuel c clean whole fits =
    let short : ltb (length (take k (take recvbuflen (text ++ 0 ∷ memory)))) 1024 ≡ true =
      ground (arith, length-take-le k (take recvbuflen (text ++ 0 ∷ memory))) in
    rw (recv_msg, short, c_str-take-take k recvbuflen text memory clean whole (omega arith)) refl
