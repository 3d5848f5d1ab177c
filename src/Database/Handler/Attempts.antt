-- ===== src/Database/Handler/Attempts.antt =====
-- How often the handler tries to connect, and how that ends.
use inertia_trader.Common.{
  ℕ, zero, suc, ◌+◌, ◌<◌, ◌≡◌, ap, ◌∙◌, sym, Bool, true, false, Option, List, Text, arith, ◌⊎◌, inl,
  inr, Bool-cases, ◌==◌, ==_iff,
}
use inertia_trader.Common.Action.{Outcome, ok, throws, fault}
use inertia_trader.Common.Action.Laws.{>>=-ok}
use inertia_trader.Platform.{Platform}
use inertia_trader.Funclib.InitParser.{InitParser, new_parser, read_line}
use inertia_trader.Database.Handler.{login_of, initialise, connect_loop}

module _ {N : Type 0} (P : Platform N) (file : Option (List Text)) (cfg : Text) (p : InitParser)
    (readable : read_line file (new_parser cfg) ≡ (ok tt, p)) where
  -- Whether the n-th attempt succeeds, with what the settings file says.
  abbrev pub attempt : ℕ → Bool
  attempt n = let login = login_of p in P.connects n login.hostname login.username login.database

  initialise-attempt : (n : ℕ) → initialise P file cfg n ≡ (ok (attempt n), suc n)
  unfolding initialise
  initialise-attempt n =
      ap
        (λ q.
          let login = login_of q.1 in
          elim q.0 [
            | ok _ ↦ (ok (P.connects n login.hostname login.username login.database), suc n)
            | throws ↦ (throws, n)
            | fault ↦ (fault, n)
          ])
        readable

  connect_loop-stop :
      (rounds n : ℕ) → attempt n ≡ true → connect_loop P file cfg (suc rounds) n ≡ (ok true, suc n)
  unfolding connect_loop
  connect_loop-stop rounds n e = rw (
    connect_loop,
    >>=-ok (initialise P file cfg) _ n (suc n) true
        (initialise-attempt n ∙ ap (λ b. (ok b, suc n)) e),
  )

  connect_loop-again :
      (rounds n : ℕ)
      → attempt n ≡ false
      → connect_loop P file cfg (suc rounds) n ≡ connect_loop P file cfg rounds (suc n)
  unfolding connect_loop
  connect_loop-again rounds n e = rw (
    connect_loop,
    >>=-ok (initialise P file cfg) _ n (suc n) false
        (initialise-attempt n ∙ ap (λ b. (ok b, suc n)) e),
  )

  -- With settings that can be read, and if one of the rounds that are left meets an attempt that
  -- succeeds, the loop ends connected, with the first such attempt.
  pub connect_loop-first :
      (k rounds n : ℕ)
      → ((i : ℕ) → i < k → attempt (n + i) ≡ false)
      → attempt (n + k) ≡ true
      → k < rounds
      → connect_loop P file cfg rounds n ≡ (ok true, suc (n + k))
  connect_loop-first k zero n before here h = absurd (omega arith)
  connect_loop-first zero (suc rounds) n before here h =
      let e : n + 0 ≡ n = omega arith in
      connect_loop-stop rounds n (ap attempt (sym e) ∙ here) ∙ ap (λ m. (ok true, suc m)) (sym e)
  connect_loop-first (suc k) (suc rounds) n before here h =
      let e : n + suc k ≡ suc n + k = omega arith in
      let e0 : n + 0 ≡ n = omega arith in
      connect_loop-again rounds n (ap attempt (sym e0) ∙ before 0 (omega arith))
      ∙ connect_loop-first k rounds (suc n)
          (λ i l. ap attempt (omega arith) ∙ before (suc i) (omega arith))
          (ap attempt (sym e) ∙ here) (omega arith)
      ∙ ap (λ m. (ok true, suc m)) (sym e)

  -- With settings that can be read, and if no attempt of the rounds that are left succeeds, the loop
  -- ends behind the last round, not connected.
  pub connect_loop-none :
      (rounds n : ℕ)
      → ((i : ℕ) → i < rounds → attempt (n + i) ≡ false)
      → connect_loop P file cfg rounds n ≡ (ok false, n + rounds)
  unfolding connect_loop
  connect_loop-none zero n before = ap (λ m. (ok false, m)) (omega arith)
  connect_loop-none (suc rounds) n before =
      let e0 : n + 0 ≡ n = omega arith in
      connect_loop-again rounds n (ap attempt (sym e0) ∙ before 0 (omega arith))
      ∙ connect_loop-none rounds (suc n)
          (λ i l. ap attempt (omega arith) ∙ before (suc i) (omega arith))
      ∙ ap (λ m. (ok false, m)) (omega arith)

  -- How the loop ends: at the first attempt that succeeds, or behind the last round.
  pub data LoopEnds (rounds n : ℕ) (q : Outcome Bool × ℕ) : Type 0 where
    connected :
        (k : ℕ)
        → k < rounds
        → ((i : ℕ) → i < k → attempt (n + i) ≡ false)
        → attempt (n + k) ≡ true
        → q ≡ (ok true, suc (n + k))
        → LoopEnds rounds n q
    given_up :
        ((i : ℕ) → i < rounds → attempt (n + i) ≡ false)
        → q ≡ (ok false, n + rounds)
        → LoopEnds rounds n q

  -- The attempts that are left have one that succeeds, and a first one, or none.
  first_success :
      (rounds n : ℕ)
      → ((k : ℕ) × (k < rounds)
          × ((i : ℕ) → i < k → attempt (n + i) ≡ false)
          × (attempt (n + k) ≡ true))
        ⊎ ((i : ℕ) → i < rounds → attempt (n + i) ≡ false)
  first_success zero n = inr (λ i l. absurd (omega arith))
  first_success (suc rounds) n = elim (first_success rounds n) [
    | inl (k, l, before, here) ↦ inl (k, omega arith, before, here)
    | inr none_yet ↦ elim (Bool-cases (attempt (n + rounds))) [
      | inl here ↦ inl (rounds, omega arith, none_yet, here)
      | inr fails ↦ inr (λ i l. elim (Bool-cases (i == rounds)) [
        | inl last ↦ ap (λ j. attempt (n + j)) ((==_iff i rounds).0 last) ∙ fails
        | inr other ↦ none_yet i (ground (arith, other))
      ])
    ]
  ]

  -- With settings that can be read, the loop ends. It is connected by the first attempt of its rounds
  -- that succeeds, and makes no other behind that one; where none does, it has made them all and is not
  -- connected.
  pub connect_loop-LoopEnds : (rounds n : ℕ) → LoopEnds rounds n (connect_loop P file cfg rounds n)
  connect_loop-LoopEnds rounds n = elim (first_success rounds n) [
    | inl (k, l, before, here) ↦
        LoopEnds.connected k l before here (connect_loop-first k rounds n before here l)
    | inr none_yet ↦ LoopEnds.given_up none_yet (connect_loop-none rounds n none_yet)
  ]
