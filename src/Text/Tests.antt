-- ===== src/Text/Tests.antt =====
-- The functions of string.c on a memory with two texts: "abc" at 10 and "abd" at 20.
use os_project2_test.Prelude.{◌≡◌, ◌-◌, refl, arith, ◌==◌, ◌+◌, if◌then◌else◌, [], ◌∷◌}
use os_project2_test.Text.{Memory, memmove, move_down}
use os_project2_test.Text.Move.{inside, memmove_lem}
use os_project2_test.Text.Strings.{text, IsBytes}

abbrev memory : Memory
memory a =
    if a == 10
    then 97
    else if a == 11
    then 98
    else if a == 12
    then 99
    else if a == 20
    then 97
    else if a == 21
    then 98
    else if a == 22
    then 100
    else 0

memory-IsBytes : IsBytes memory
memory-IsBytes a = ground arith

moves_up : text (memmove memory 11 10 3) 10 5 ≡ 97 ∷ 97 ∷ 98 ∷ 99 ∷ []
unfolding memmove move_down text
moves_up = refl

memmove_lem_example :
    memmove memory 11 10 3 12 ≡ (if inside 11 3 12 then memory (10 + (12 - 11)) else memory 12)
memmove_lem_example = memmove_lem memory 11 10 3 12
