-- ===== src/User/Uniq.antt =====
-- uniq.c: process_uniq on the bytes of its input. What is printed is the list of its bytes.
pub mod Runs
use os_project2_test.Prelude.{
  ℕ, zero, suc, ◌+◌, ◌-◌, ◌^◌, Bool, true, false, not, ◌&&◌, ◌||◌, List, [], ◌∷◌, ◌++◌, ◌==◌, ltb,
  leb, if◌then◌else◌, length, add32, sub32, lt_int,
}
use os_project2_test.User.Ulib.{first, strcmp}
use os_project2_test.User.Printf.{printint}

-- `count_flag`, `ignore_case` and `duplicates`
pub record Flags : Type 0 where
  pub count_flag : Bool
  pub ignore_case : Bool
  pub duplicates : Bool

-- The bytes that are stored, of which `room` fit, and the input that is left.
pub read_line : ℕ → List ℕ → List ℕ × List ℕ
read_line zero input = ([], input)
read_line (suc room) [] = ([], [])
read_line (suc room) (c ∷ input) =
    let (buf, rest) = read_line room input in if c == 10 then ([], input) else (c ∷ buf, rest)

-- The text that stands in a buffer.
pub buffer_text : List ℕ → List ℕ
buffer_text [] = []
buffer_text (c ∷ buf) = if c == 0 then [] else c ∷ buffer_text buf

abbrev pub lower : ℕ → ℕ
lower c = if leb 65 c && leb c 90 then c + 32 else c

-- A `char` as an `int`.
abbrev pub char_int : ℕ → ℕ
char_int c = if ltb c 128 then c else c + (2 ^ 32 - 256)

pub strcasecmp : List ℕ → List ℕ → ℕ
strcasecmp [] q = sub32 0 (char_int (first q))
strcasecmp (c ∷ p) [] = sub32 (char_int c) 0
strcasecmp (c ∷ p) (d ∷ q) =
    if lower c == lower d then strcasecmp p q else sub32 (char_int (lower c)) (char_int (lower d))

pub is_same : Flags → List ℕ → List ℕ → Bool
is_same flags a b = (if flags.ignore_case then strcasecmp a b else strcmp a b) == 0

-- What a turn of the loop prints before it takes a new line.
pub print_prev : Flags → Bool → List ℕ → ℕ → List ℕ
print_prev flags first_line prev count =
    if not first_line
    then if not flags.duplicates || lt_int 1 count
      then (if flags.count_flag then printint count 10 true ++ 32 ∷ [] else []) ++ prev ++ 10 ∷ []
      else []
    else []

-- What is printed after the loop.
pub print_last : Flags → Bool → List ℕ → ℕ → List ℕ
print_last flags first_line prev count =
    if not first_line && (not flags.duplicates || lt_int 1 count)
    then (if flags.count_flag then printint count 10 true ++ 32 ∷ [] else []) ++ prev ++ 10 ∷ []
    else []

-- The loop, with `prev_line`, `count` and `first_line`, and the end; each turn reads a byte at least.
pub uniq_from : ℕ → List ℕ → Flags → List ℕ → ℕ → Bool → List ℕ
uniq_from zero input flags prev count first_line = print_last flags first_line prev count
uniq_from (suc turns) input flags prev count first_line =
    let (line, rest) = read_line 1023 input in
    let fresh = uniq_from turns rest flags (buffer_text line) 1 false in
    let again = uniq_from turns rest flags prev (add32 count 1) first_line in
    if lt_int 0 (length line)
    then if first_line || not (is_same flags (buffer_text line) prev)
      then print_prev flags first_line prev count ++ fresh
      else again
    else print_last flags first_line prev count

pub process_uniq : List ℕ → Flags → List ℕ
process_uniq input flags = uniq_from (length input + 1) input flags [] 0 true
