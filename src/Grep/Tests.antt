-- ===== src/Grep/Tests.antt =====
-- The matcher on small patterns.
use os_project2_test.Prelude.{◌≡◌, ◌↔◌, refl, true, false, [], ◌∷◌}
use os_project2_test.Grep.{Bytes, match, match_from, matchhere, matchstar}
use os_project2_test.Grep.Meaning.{Means, match_iff}

abbrev text : Bytes
text = b'x' ∷ b'a' ∷ b'a' ∷ b'b' ∷ []

-- `a*b$`
abbrev pattern_end : Bytes
pattern_end = b'a' ∷ b'*' ∷ b'b' ∷ b'$' ∷ []

-- `^a`
abbrev pattern_start : Bytes
pattern_start = b'^' ∷ b'a' ∷ []

finds_end : match pattern_end text ≡ true
unfolding match match_from matchhere matchstar
finds_end = refl

refuses_start : match pattern_start text ≡ false
unfolding match match_from matchhere matchstar
refuses_start = refl

match_iff_example : (match pattern_end text ≡ true) ↔ Means pattern_end text
match_iff_example = match_iff pattern_end text
