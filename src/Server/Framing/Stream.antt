-- ===== src/Server/Framing/Stream.antt =====
-- The framing as a whole: which messages a stream of receives is cut into.
use mathlib.Core.List.{cons-ne-nil}
use inertia_trader.Common.{
  ℕ, ◌≡◌, refl, sym, ◌∙◌, ap, subst, ◌≢◌, inl, inr, true, false, none, some, List, [], ◌∷◌, ◌++◌,
  Text, codes, text_eq, split_last, ◌==◌, ==_iff, arith, append_assoc, append-nil, Bool-cases, All,
  Option-cases, All-append, All-split, text_eq_iff,
}
use inertia_trader.Common.Action.{Outcome, ok, throws, fault}
use inertia_trader.Funclib.Split.{contains, split, amp}
use inertia_trader.Funclib.Split.Laws.{NoNul, split-cut}
use inertia_trader.Server.Framing.{prepend, last_byte, but_last, frame_byte, frame_text, frame}

split_last-none : (d : ℕ) (s : Text) → contains d s ≡ false → split_last d s ≡ none
unfolding contains
split_last-none d [] h = refl
split_last-none d (c ∷ s) h = ground (arith, split_last-none d s)

split_last-some :
    (d : ℕ) (s : Text)
    → contains d s ≡ true
    → (front behind : Text) × (split_last d s ≡ some (front, behind))
      × (s ≡ front ++ d ∷ behind)
      × (contains d behind ≡ false)
unfolding contains
split_last-some d [] h = cc
split_last-some d (c ∷ s) h = elim (Bool-cases (contains d s)) [
  | inl later ↦
      let (front, behind, e, whole, lacks) = split_last-some d s later in
      (c ∷ front, behind, ground (arith, e), ap (◌∷◌ c) whole, lacks)
  | inr last ↦ ([], s, ground (arith, split_last-none d s last), ground arith, last)
]

last_byte-snoc : (s : Text) (c : ℕ) → last_byte s ≡ some c → s ≡ but_last s ++ c ∷ []
last_byte-snoc [] c h = cc
last_byte-snoc (b ∷ []) c h = cc
last_byte-snoc (b ∷ d ∷ s) c h = ap (◌∷◌ b) (last_byte-snoc (d ∷ s) c h)

last_byte-none : (s : Text) → last_byte s ≡ none → s ≡ []
last_byte-none [] h = refl
last_byte-none (b ∷ []) h = cc
last_byte-none (b ∷ d ∷ s) h = absurd (cons-ne-nil d s (last_byte-none (d ∷ s) h))

contains-append : (d : ℕ) (s t : Text) → contains d t ≡ true → contains d (s ++ t) ≡ true
unfolding contains
contains-append d [] t h = h
contains-append d (c ∷ s) t h = ground (arith, contains-append d s t h)

contains-snoc : (d : ℕ) (s : Text) → contains d (s ++ d ∷ []) ≡ true
unfolding contains
contains-snoc d [] = ground arith
contains-snoc d (c ∷ s) = ground (arith, contains-snoc d s)

-- What is kept always comes before what is received, but for a bare heartbeat.
prepend-eq :
    (temp recv : Text) → text_eq recv (codes "<3&") ≡ false → prepend temp recv ≡ (temp ++ recv, [])
unfolding prepend
prepend-eq [] recv h = refl
prepend-eq (c ∷ temp) recv h = ground arith

frame_byte-cut :
    (str : Text) (c : ℕ)
    → last_byte str ≡ some c
    → contains b'&' str ≡ true
    → (sub kept : Text) × (frame_byte (some c) str [] ≡ ok (sub, kept))
      × (str ≡ sub ++ b'&' ∷ kept)
      × (contains b'&' kept ≡ false)
unfolding contains
frame_byte-cut str c last has = elim (Bool-cases (c == b'&')) [
  | inl whole ↦ (
    but_last str,
    [],
    rw whole,
    last_byte-snoc str c last ∙ ap (λ d. but_last str ++ d ∷ []) ((==_iff c b'&').0 whole),
    refl,
  )
  | inr partial ↦
      let (front, behind, e, parts, lacks) = split_last-some b'&' str has in
      (front, behind, rw (partial, e) refl, parts, lacks)
]

frame_text-cut :
    (str : Text)
    → contains b'&' str ≡ true
    → (sub kept : Text) × (frame_text (str, []) ≡ ok (sub, kept))
      × (str ≡ sub ++ b'&' ∷ kept)
      × (contains b'&' kept ≡ false)
unfolding contains
frame_text-cut str has = elim (Option-cases (last_byte str)) [
  | inl e ↦ absurd (ground (arith, last_byte-none str e))
  | inr (c, e) ↦ rw e (frame_byte-cut str c e has)
]

-- A receive that contains an `&` is cut at the last one: what stands before it is delivered, and
-- what stands behind it is kept. Together with the `&` they are all that was there.
pub frame-cut :
    (temp recv : Text)
    → text_eq recv (codes "<3&") ≡ false
    → contains b'&' recv ≡ true
    → (sub kept : Text) × (frame temp recv ≡ ok (sub, kept))
      × (temp ++ recv ≡ sub ++ b'&' ∷ kept)
      × (contains b'&' kept ≡ false)
frame-cut temp recv other has =
    let (sub, kept, e, parts, lacks) =
      frame_text-cut (temp ++ recv) (contains-append b'&' temp recv has) in
    (sub, kept, unfold frame in ap frame_text (prepend-eq temp recv other) ∙ e, parts, lacks)

not_last :
    (str : Text) (c : ℕ) → last_byte str ≡ some c → contains b'&' str ≡ false → (c == b'&') ≡ false
not_last str c last lacks = elim (Bool-cases (c == b'&')) [
  | inl hit ↦ cc (
      sym lacks
      ∙ ap (contains b'&')
          (last_byte-snoc str c last ∙ ap (λ d. but_last str ++ d ∷ []) ((==_iff c b'&').0 hit))
      ∙ contains-snoc b'&' (but_last str))
  | inr other ↦ other
]

frame_text-unfinished :
    (str : Text) → str ≢ [] → contains b'&' str ≡ false → frame_text (str, []) ≡ ok (str, str)
frame_text-unfinished str full lacks = elim (Option-cases (last_byte str)) [
  | inl e ↦ absurd (full (last_byte-none str e))
  | inr (c, e) ↦ rw (e, not_last str c e lacks, split_last-none b'&' str lacks) refl
]

not_heartbeat :
    (temp recv : Text) → contains b'&' (temp ++ recv) ≡ false → text_eq recv (codes "<3&") ≡ false
unfolding contains
not_heartbeat temp recv lacks = elim (Bool-cases (text_eq recv (codes "<3&"))) [
  | inl hit ↦ cc (
      sym lacks
      ∙ contains-append b'&' temp recv
          (ap (contains b'&') ((text_eq_iff recv (codes "<3&")).0 hit)))
  | inr other ↦ other
]

-- Without an `&` the unfinished text is delivered at once, and is kept as well.
pub frame-unfinished :
    (temp recv : Text)
    → temp ++ recv ≢ []
    → contains b'&' (temp ++ recv) ≡ false
    → frame temp recv ≡ ok (temp ++ recv, temp ++ recv)
unfolding frame
frame-unfinished temp recv full lacks =
    ap frame_text (prepend-eq temp recv (not_heartbeat temp recv lacks))
    ∙ frame_text-unfinished (temp ++ recv) full lacks

-- The messages of a sequence of receives, in their order, and what is kept at the end.
abbrev pub add_messages : List Text → Outcome (List Text × Text) → Outcome (List Text × Text)
add_messages ms (ok (ns, t)) = ok (ms ++ ns, t)
add_messages ms throws = throws
add_messages ms fault = fault

abbrev pub receive_next :
    (Text → Outcome (List Text × Text)) → Outcome (Text × Text) → Outcome (List Text × Text)
receive_next later (ok (sub, kept)) = add_messages (split sub amp) (later kept)
receive_next later throws = throws
receive_next later fault = fault

abbrev pub receive_all : Text → List Text → Outcome (List Text × Text)
receive_all temp [] = ok ([], temp)
receive_all temp (r ∷ rs) = receive_next (λ kept. receive_all kept rs) (frame temp r)

abbrev pub stream : List Text → Text
stream [] = []
stream (r ∷ rs) = r ++ stream rs

-- A receive that completes a message, and is no bare heartbeat.
abbrev pub Completes : Text → Type 0
Completes r = (text_eq r (codes "<3&") ≡ false) × (contains b'&' r ≡ true) × NoNul r

-- One receive that completes a message: what is cut off goes before what the rest is cut into.
pub stream-cut :
    (temp r : Text) (rs : List Text)
    → NoNul temp
    → Completes r
    → (sub kept : Text) × (frame temp r ≡ ok (sub, kept))
      × (split (temp ++ (r ++ stream rs)) amp ≡ split sub amp ++ split (kept ++ stream rs) amp)
      × NoNul kept
      × (contains b'&' kept ≡ false)
stream-cut temp r rs clean (other, has, rclean) =
    let (sub, kept, e, parts, lacks) = frame-cut temp r other has in
    let (sclean, kclean) =
      All-split (λ c. c ≢ 0) sub (b'&' ∷ kept)
        (subst NoNul parts (All-append (λ c. c ≢ 0) temp r clean rclean)) in
    (
      sub,
      kept,
      e,
      ap (λ s. split s amp)
            (sym (append_assoc temp r (stream rs))
              ∙ ap (λ s. s ++ stream rs) parts
              ∙ append_assoc sub (b'&' ∷ kept) (stream rs))
          ∙ split-cut sub (kept ++ stream rs) b'&' (omega arith) sclean,
      kclean.1,
      lacks,
    )

-- However the bytes are spread over receives that each complete a message, the messages are those
-- of the whole stream, each once and in order, and only an unfinished one is kept.
pub receive_all-stream :
    (temp : Text) (rs : List Text)
    → NoNul temp
    → contains b'&' temp ≡ false
    → All Completes rs
    → (ms : List Text) × (t : Text) × (receive_all temp rs ≡ ok (ms, t))
      × (split (temp ++ stream rs) amp ≡ ms ++ split t amp)
      × (contains b'&' t ≡ false)
receive_all-stream temp [] clean lacks all =
    ([], temp, refl, ap (λ s. split s amp) (append-nil temp), lacks)
receive_all-stream temp (r ∷ rs) clean lacks (completes, all) =
    let (sub, kept, e, cuts, kclean, klacks) = stream-cut temp r rs clean completes in
    let (ms, t, e', whole, tlacks) = receive_all-stream kept rs kclean klacks all in
    (
      split sub amp ++ ms,
      t,
      rw (e, e') refl,
      cuts ∙ ap (◌++◌ (split sub amp)) whole ∙ sym (append_assoc (split sub amp) ms (split t amp)),
      tlacks,
    )

last_byte_of_snoc : (s : Text) (c : ℕ) → last_byte (s ++ c ∷ []) ≡ some c
last_byte_of_snoc [] c = refl
last_byte_of_snoc (b ∷ []) c = refl
last_byte_of_snoc (b ∷ d ∷ s) c = last_byte_of_snoc (d ∷ s) c

but_last_of_snoc : (s : Text) (c : ℕ) → but_last (s ++ c ∷ []) ≡ s
but_last_of_snoc [] c = refl
but_last_of_snoc (b ∷ []) c = refl
but_last_of_snoc (b ∷ d ∷ s) c = ap (◌∷◌ b) (but_last_of_snoc (d ∷ s) c)

-- With nothing kept, a text and its `&` are cut into the text and nothing.
pub frame-whole : (m : Text) → frame [] (m ++ b'&' ∷ []) ≡ ok (m, [])
unfolding frame prepend
frame-whole m = rw (last_byte_of_snoc m b'&', but_last_of_snoc m b'&') refl
