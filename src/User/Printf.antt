-- ===== src/User/Printf.antt =====
-- printf.c: the number printer. What is printed is the list of its bytes.
pub mod Digits
use os_project2_test.Prelude.{
  ℕ, zero, suc, ◌+◌, ◌-◌, ◌*◌, ◌/◌, ◌%◌, ◌^◌, Bool, true, false, not, ◌&&◌, ◌||◌, Option, none,
  some, List, [], ◌∷◌, ◌++◌, ◌==◌, ltb, leb, if◌then◌else◌, sub32, lt_int,
}

-- `digits[d]`
abbrev pub digit : ℕ → ℕ
digit d = if ltb d 10 then 48 + d else 55 + d

-- The loop that stores the digits in `buf`, lowest first; a turn for each digit is enough.
unfoldable pub fill_digits : ℕ → ℕ → ℕ → List ℕ
fill_digits zero x base = []
fill_digits (suc turns) x base =
    let rest = fill_digits turns (x / base) base in
    digit (x % base) ∷ (if x / base == 0 then [] else rest)

-- `buf` printed from its end.
unfoldable pub print_back : List ℕ → List ℕ → List ℕ
print_back [] after = after
print_back (c ∷ buf) after = print_back buf (c ∷ after)

-- The contents of `buf`.
unfoldable pub number_buf : ℕ → ℕ → Bool → List ℕ
number_buf xx base sgn =
    if sgn && lt_int xx 0
    then fill_digits 32 (sub32 0 xx) base ++ 45 ∷ []
    else fill_digits 32 xx base

unfoldable pub printint : ℕ → ℕ → Bool → List ℕ
printint xx base sgn = print_back (number_buf xx base sgn) []
