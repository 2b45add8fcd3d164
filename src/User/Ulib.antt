-- ===== src/User/Ulib.antt =====
-- ulib.c: the comparisons, the search and the number of a text. A `char` is signed where the source
-- does not say uchar.
use os_project2_test.Prelude.{
  ℕ, ◌+◌, ◌-◌, ◌*◌, ◌%◌, ◌^◌, Bool, ◌&&◌, Option, none, some, List, [], ◌∷◌, ◌==◌, leb,
  if◌then◌else◌, sub32,
}

-- The first byte of a text, 0 at its end.
abbrev pub first : List ℕ → ℕ
first [] = 0
first (c ∷ cs) = c

unfoldable pub strcmp : List ℕ → List ℕ → ℕ
strcmp [] q = sub32 0 (first q)
strcmp (c ∷ p) [] = sub32 c 0
strcmp (c ∷ p) (d ∷ q) = if c == d then strcmp p q else sub32 c d

-- The text from the byte on.
unfoldable pub strchr : List ℕ → ℕ → Option (List ℕ)
strchr [] c = none
strchr (d ∷ s) c = if d == c then some (d ∷ s) else strchr s c

abbrev pub is_digit : ℕ → Bool
is_digit c = leb 48 c && leb c 57

-- The loop of `atoi`, whose `n` may go round.
unfoldable pub atoi_from : List ℕ → ℕ → ℕ
atoi_from [] n = n
atoi_from (c ∷ s) n = if is_digit c then atoi_from s ((n * 10 + c - 48) % 2 ^ 32) else n

unfoldable pub atoi : List ℕ → ℕ
atoi s = atoi_from s 0
