-- ===== src/Console/Tests.antt =====
-- Examples for the console.
use os_project2_test.Prelude.{◌^◌, ◌≡◌, refl, false, [], ◌∷◌, ◌-◌, ◌==◌, if◌then◌else◌, arith}
use os_project2_test.Console.{Input, consoleintr, console_read}
use os_project2_test.Console.Ring.{ring}
use os_project2_test.Console.Lines.{lines_of, has_newline, IsValid}
use os_project2_test.Console.Lines.Keys.{type_keys, consoleintr-lines}
use os_project2_test.Console.Read.{Reads, take_line, console_read-lines}

-- "a" and a newline can be read, and "b" is edited; the indices are about to go round.
abbrev typed : Input
typed = record {
  buf = λ i. if i == 125 then 97 else if i == 126 then 10 else 98;
  r = 2 ^ 32 - 3;
  w = 2 ^ 32 - 1;
  e = 0;
}

typed-IsValid : IsValid typed
unfolding ring has_newline
typed-IsValid = record { words = refl; order = omega arith; room = omega arith; edits = refl }

-- "x", backspace, "c" and a carriage return.
consoleintr-lines_example :
    (lines_of (consoleintr (120 ∷ 8 ∷ 99 ∷ 13 ∷ []) typed).0
      ≡ (type_keys (120 ∷ 8 ∷ 99 ∷ 13 ∷ []) (lines_of typed)).0)
    × ((consoleintr (120 ∷ 8 ∷ 99 ∷ 13 ∷ []) typed).1
        ≡ (type_keys (120 ∷ 8 ∷ 99 ∷ 13 ∷ []) (lines_of typed)).1)
    × IsValid (consoleintr (120 ∷ 8 ∷ 99 ∷ 13 ∷ []) typed).0
consoleintr-lines_example = consoleintr-lines (120 ∷ 8 ∷ 99 ∷ 13 ∷ []) typed typed-IsValid

console_read-lines_example :
    Reads typed (console_read 5 false typed) (take_line 5 false (lines_of typed).ready)
console_read-lines_example = console_read-lines 5 false typed typed-IsValid

read_a_line : (console_read 5 false typed).bytes ≡ 97 ∷ 10 ∷ []
unfolding console_read
read_a_line = refl
