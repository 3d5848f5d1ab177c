-- ===== src/Funclib/Split/Tests.antt =====
-- Runs of `split` on messages.
use inertia_trader.Common.{◌≡◌, refl, [], ◌∷◌, codes}
use inertia_trader.Funclib.Split.{split, bar, amp}

split-order :
    split (codes "87|313548|60||KKC|") bar
    ≡ codes "87" ∷ codes "313548" ∷ codes "60" ∷ codes "KKC" ∷ []
unfolding split
split-order = refl

split-heartbeats : split (codes "&<3&&<3") amp ≡ codes "<3" ∷ codes "<3" ∷ []
unfolding split
split-heartbeats = refl
