-- ===== src/Grep/Meaning.antt =====
-- What the patterns of grep mean, and that the matcher decides it.
use os_project2_test.Prelude.{
  ℕ, ◌≡◌, ◌≢◌, ◌↔◌, refl, Bool, true, ◌==◌, [], ◌∷◌, arith, ◌⊎◌, inl, inr, Bool-cases,
}
use os_project2_test.Grep.{Bytes, accepts, matchstar, matchhere, match_from, match}

-- The text begins with something that the pattern describes. A `*` belongs to the character before
-- it, whatever that is; a `$` stands for the end only as the last character.
pub data Begins : Bytes → Bytes → Type 0 where
  nothing : {text : Bytes} → Begins [] text
  at_end : {c : ℕ} → c ≡ b'$' → Begins (c ∷ []) []
  no_more : {c d : ℕ} {re text : Bytes} → d ≡ b'*' → Begins re text → Begins (c ∷ d ∷ re) text
  one_more :
      {c d t : ℕ} {re text : Bytes}
      → d ≡ b'*'
      → accepts c t ≡ true
      → Begins (c ∷ d ∷ re) text
      → Begins (c ∷ d ∷ re) (t ∷ text)
  last : {c t : ℕ} {text : Bytes} → c ≢ b'$' → accepts c t ≡ true → Begins (c ∷ []) (t ∷ text)
  byte :
      {c d t : ℕ} {re text : Bytes}
      → d ≢ b'*'
      → accepts c t ≡ true
      → Begins (d ∷ re) text
      → Begins (c ∷ d ∷ re) (t ∷ text)

-- Some suffix of the text begins so.
pub data Occurs (re : Bytes) : Bytes → Type 0 where
  here : {text : Bytes} → Begins re text → Occurs re text
  further : {t : ℕ} {text : Bytes} → Occurs re text → Occurs re (t ∷ text)

matchstar_sound :
    (f : Bytes → Bool) (c d : ℕ) (re text : Bytes)
    → d ≡ b'*'
    → ((s : Bytes) → f s ≡ true → Begins re s)
    → matchstar f c text ≡ true
    → Begins (c ∷ d ∷ re) text
unfolding matchstar
matchstar_sound f c d re [] star sound h = no_more star (sound [] h)
matchstar_sound f c d re (t ∷ text) star sound h = elim (Bool-cases (f (t ∷ text))) [
  | inl e ↦ no_more star (sound (t ∷ text) e)
  | inr e ↦ one_more star (ground arith) (matchstar_sound f c d re text star sound (ground arith))
]

matchhere_sound : (re text : Bytes) → matchhere re text ≡ true → Begins re text
unfolding matchhere
matchhere_sound [] text h = nothing
matchhere_sound (c ∷ []) [] h = at_end (ground arith)
matchhere_sound (c ∷ []) (t ∷ text) h = last (ground arith) (ground arith)
matchhere_sound (c ∷ d ∷ re) [] h =
    matchstar_sound (matchhere re) c d re [] (ground arith) (matchhere_sound re) (ground arith)
matchhere_sound (c ∷ d ∷ re) (t ∷ text) h = elim (Bool-cases (d == b'*')) [
  | inl e ↦
      matchstar_sound (matchhere re) c d re (t ∷ text) (ground arith) (matchhere_sound re)
        (ground arith)
  | inr e ↦ byte (ground arith) (ground arith) (matchhere_sound (d ∷ re) text (ground arith))
]

matchstar_here :
    (f : Bytes → Bool) (c : ℕ) (text : Bytes) → f text ≡ true → matchstar f c text ≡ true
unfolding matchstar
matchstar_here f c [] h = h
matchstar_here f c (t ∷ text) h = rw h

-- Every derivation makes the matcher answer true.
matchhere_complete : {re text : Bytes} → Begins re text → matchhere re text ≡ true
unfolding matchhere matchstar
matchhere_complete nothing = refl
matchhere_complete (at_end e) = ground arith
matchhere_complete (no_more {c} {d} {re} {text} e b) =
    star_here c d re text e (matchhere_complete b)
  where
    star_here :
        (c d : ℕ) (re text : Bytes)
        → d ≡ b'*'
        → matchhere re text ≡ true
        → matchhere (c ∷ d ∷ re) text ≡ true
    star_here c d re [] e h = ground (arith, matchstar_here (matchhere re) c [] h)
    star_here c d re (t ∷ text) e h = ground (arith, matchstar_here (matchhere re) c (t ∷ text) h)
matchhere_complete (one_more {c} {d} {t} {re} {text} e a b) =
    star_more c d t re text e a (matchhere_complete b)
  where
    star_more :
        (c d t : ℕ) (re text : Bytes)
        → d ≡ b'*'
        → accepts c t ≡ true
        → matchhere (c ∷ d ∷ re) text ≡ true
        → matchhere (c ∷ d ∷ re) (t ∷ text) ≡ true
    star_more c d t re [] e a h = ground arith
    star_more c d t re (u ∷ text) e a h = ground arith
matchhere_complete (last n a) = ground arith
matchhere_complete (byte n a b) = ground (arith, matchhere_complete b)

match_from_sound : (re text : Bytes) → match_from re text ≡ true → Occurs re text
unfolding match_from
match_from_sound re [] h = here (matchhere_sound re [] h)
match_from_sound re (t ∷ text) h = elim (Bool-cases (matchhere re (t ∷ text))) [
  | inl e ↦ here (matchhere_sound re (t ∷ text) e)
  | inr e ↦ further (match_from_sound re text (ground arith))
]

begins_match : (re text : Bytes) → matchhere re text ≡ true → match_from re text ≡ true
unfolding match_from
begins_match re [] h = h
begins_match re (t ∷ text) h = rw h

match_from_complete : {re text : Bytes} → Occurs re text → match_from re text ≡ true
unfolding match_from
match_from_complete {re} (here {text} b) = begins_match re text (matchhere_complete b)
match_from_complete {re} (further {t} {text} o) = ground (arith, match_from_complete o)

-- What a whole pattern means: after `^` at the start of the text, otherwise anywhere in it.
abbrev pub Means : Bytes → Bytes → Type 0
Means [] text = Occurs [] text
Means (c ∷ re) text = ((c ≡ b'^') × Begins re text) ⊎ ((c ≢ b'^') × Occurs (c ∷ re) text)

-- `match` answers 1 exactly on the texts that the pattern means, for every pattern and text.
pub match_iff : (re text : Bytes) → (match re text ≡ true) ↔ Means re text
unfolding match
match_iff [] text = (match_from_sound [] text, match_from_complete)
match_iff (c ∷ re) text = elim (Bool-cases (c == b'^')) [
  | inl e ↦ rw e (
    (λ h. inl (ground arith, matchhere_sound re text h)),
    elim [ inl (_, b) ↦ matchhere_complete b | inr (n, _) ↦ absurd (n (ground arith)) ],
  )
  | inr e ↦ rw e (
    (λ h. inr (ground arith, match_from_sound (c ∷ re) text h)),
    elim [ inl (q, _) ↦ ground arith | inr (_, o) ↦ match_from_complete o ],
  )
]
