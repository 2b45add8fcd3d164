-- ===== src/Grep.antt =====
-- grep.c: the matcher. A string is the list of its bytes before the NUL.
pub mod Meaning
mod Tests
use os_project2_test.Prelude.{
  ℕ, zero, suc, Bool, true, false, not, ◌&&◌, ◌||◌, ◌==◌, if◌then◌else◌, List, [], ◌∷◌,
}

abbrev pub Bytes : Type 0
Bytes = List ℕ

-- `re[0] == '.' || re[0] == *text`
abbrev pub accepts : ℕ → ℕ → Bool
accepts c t = c == b'.' || c == t

-- The loop of `matchstar`, where `here` is `matchhere` on what follows the star. Its test reads
-- `*text++ == c || c == '.'`.
pub matchstar : (Bytes → Bool) → ℕ → Bytes → Bool
matchstar here c [] = here []
matchstar here c (t ∷ text) =
    let rest = matchstar here c text in
    if here (t ∷ text) then true else if t == c || c == b'.' then rest else false

pub matchhere : Bytes → Bytes → Bool
matchhere [] text = true
matchhere (c ∷ []) [] = c == b'$'
matchhere (c ∷ []) (t ∷ text) = if c == b'$' then false else accepts c t
matchhere (c ∷ d ∷ re) [] = if d == b'*' then matchstar (matchhere re) c [] else false
matchhere (c ∷ d ∷ re) (t ∷ text) =
    let star = matchstar (matchhere re) c (t ∷ text) in
    let next = matchhere (d ∷ re) text in
    if d == b'*' then star else if accepts c t then next else false

-- The loop of `match` over the suffixes of the text, the empty one included.
pub match_from : Bytes → Bytes → Bool
match_from re [] = matchhere re []
match_from re (t ∷ text) =
    let rest = match_from re text in if matchhere re (t ∷ text) then true else rest

pub match : Bytes → Bytes → Bool
match [] text = match_from [] text
match (c ∷ re) text = if c == b'^' then matchhere re text else match_from (c ∷ re) text
