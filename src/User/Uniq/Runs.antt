-- ===== src/User/Uniq/Runs.antt =====
-- What process_uniq prints is the runs of equal lines.
pub mod Expand
use os_project2_test.Prelude.{
  ℕ, zero, suc, ◌+◌, ◌^◌, ◌≡◌, ◌<◌, refl, sym, ap, ◌∙◌, Bool, true, false, not, ◌&&◌, ◌||◌, List,
  [], ◌∷◌, ◌++◌, ◌==◌, ltb, if◌then◌else◌, length, add32, lt_int, arith, Bool-cases, inl, inr, ◌⊎◌,
  append-nil, replicate, ap₂,
}
use os_project2_test.User.Ulib.{strcmp}
use os_project2_test.User.Printf.{printint}
use os_project2_test.User.Uniq.{
  Flags, read_line, buffer_text, strcasecmp, is_same, print_prev, print_last, uniq_from,
  process_uniq,
}

pub unlines : List (List ℕ) → List ℕ
unlines [] = []
unlines (l ∷ ls) = l ++ 10 ∷ unlines ls

-- Neither a newline nor a NUL.
unfoldable pub is_plain : List ℕ → Bool
is_plain [] = true
is_plain (c ∷ l) = not (c == 10) && not (c == 0) && is_plain l

-- Lines that are not empty and that fit in the buffer.
unfoldable pub are_lines : List (List ℕ) → Bool
are_lines [] = true
are_lines (l ∷ ls) = is_plain l && ltb 0 (length l) && ltb (length l) 1023 && are_lines ls

-- The runs of lines that are the same as the first of the run, from a run of `n` on.
pub runs_from : Flags → List ℕ → ℕ → List (List ℕ) → List (ℕ × List ℕ)
runs_from flags p n [] = (n, p) ∷ []
runs_from flags p n (x ∷ xs) =
    if is_same flags x p then runs_from flags p (n + 1) xs else (n, p) ∷ runs_from flags x 1 xs

pub runs : Flags → List (List ℕ) → List (ℕ × List ℕ)
runs flags [] = []
runs flags (x ∷ xs) = runs_from flags x 1 xs

-- A run of `n` lines as `-c` and `-d` show it: its length and a space with `-c`; its text and a
-- newline; and nothing of a single line with `-d`.
unfoldable pub show_run : Flags → ℕ → List ℕ → List ℕ
show_run flags n p =
    if flags.duplicates && ltb n 2
    then []
    else if flags.count_flag
    then printint n 10 true ++ 32 ∷ p ++ 10 ∷ []
    else p ++ 10 ∷ []

pub print_runs : Flags → List (ℕ × List ℕ) → List ℕ
print_runs flags [] = []
print_runs flags ((n, p) ∷ rs) = show_run flags n p ++ print_runs flags rs

-- The input ends, or an empty line follows.
abbrev pub Stops : List ℕ → Type 0
Stops tail = (tail ≡ []) ⊎ ((rest : List ℕ) × (tail ≡ 10 ∷ rest))

abbrev after_char : ℕ → List ℕ → List ℕ × List ℕ → List ℕ × List ℕ
after_char c input p = if c == 10 then ([], input) else (c ∷ p.0, p.1)

read_line-line :
    (room : ℕ) (l rest : List ℕ)
    → is_plain l ≡ true
    → length l < room
    → read_line room (l ++ 10 ∷ rest) ≡ (l, rest)
unfolding read_line is_plain
read_line-line zero l rest p h = ground arith
read_line-line (suc room) [] rest p h = refl
read_line-line (suc room) (c ∷ l) rest p h =
    let other : (c == 10) ≡ false = ground arith in
    ap (after_char c (l ++ 10 ∷ rest))
      (read_line-line room l rest (ground arith) (omega (arith, h)))
    ∙ rw other refl

read_line-stop : (tail : List ℕ) → Stops tail → (rest : List ℕ) × (read_line 1023 tail ≡ ([], rest))
unfolding read_line
read_line-stop tail (inl e) = ([], ap (read_line 1023) e)
read_line-stop tail (inr (rest, e)) = (rest, ap (read_line 1023) e)

buffer_text-plain : (l : List ℕ) → is_plain l ≡ true → buffer_text l ≡ l
unfolding buffer_text is_plain
buffer_text-plain [] p = refl
buffer_text-plain (c ∷ l) p =
    let other : (c == 0) ≡ false = ground arith in
    rw other (ap (λ t. c ∷ t) (buffer_text-plain l (ground arith)))

-- A turn with the answer of read_line.
abbrev after_line : ℕ → Flags → List ℕ → ℕ → Bool → List ℕ × List ℕ → List ℕ
after_line turns flags prev count first_line p =
    if lt_int 0 (length p.0)
    then if first_line || not (is_same flags (buffer_text p.0) prev)
      then print_prev flags first_line prev count
        ++ uniq_from turns p.1 flags (buffer_text p.0) 1 false
      else uniq_from turns p.1 flags prev (add32 count 1) first_line
    else print_last flags first_line prev count

uniq-turn :
    (turns : ℕ) (input : List ℕ) (flags : Flags) (prev : List ℕ) (count : ℕ) (first_line : Bool)
    (p : List ℕ × List ℕ)
    → read_line 1023 input ≡ p
    → uniq_from (suc turns) input flags prev count first_line
      ≡ after_line turns flags prev count first_line p
unfolding uniq_from
uniq-turn turns input flags prev count first_line p e =
    ap (after_line turns flags prev count first_line) e

append-line : (l ls tail : List ℕ) → (l ++ 10 ∷ ls) ++ tail ≡ l ++ 10 ∷ (ls ++ tail)
append-line [] ls tail = refl
append-line (c ∷ l) ls tail = ap (λ t. c ∷ t) (append-line l ls tail)

append_assoc : (x y z : List ℕ) → (x ++ y) ++ z ≡ x ++ (y ++ z)
append_assoc [] y z = refl
append_assoc (c ∷ x) y z = ap (λ t. c ∷ t) (append_assoc x y z)

printed :
    (flags : Flags) (n : ℕ) (p : List ℕ)
    → n < 2 ^ 31
    → (if not flags.duplicates || lt_int 1 n
        then (if flags.count_flag then printint n 10 true ++ 32 ∷ [] else []) ++ p ++ 10 ∷ []
        else [])
      ≡ show_run flags n p
unfolding show_run
printed flags n p h =
    let e : lt_int 1 n ≡ not (ltb n 2) = ground arith in
    let shown : (not flags.duplicates || lt_int 1 n) ≡ not (flags.duplicates && ltb n 2) =
      ground arith in
    rw shown (elim (Bool-cases (flags.duplicates && ltb n 2)) [
      | inl q ↦ rw q refl
      | inr q ↦ rw q (elim (Bool-cases flags.count_flag) [
        | inl c ↦ rw c (ap (λ t. t ++ 10 ∷ []) (append_assoc (printint n 10 true) (32 ∷ []) p))
        | inr c ↦ rw c refl
      ])
    ])

print_prev-show_run :
    (flags : Flags) (n : ℕ) (p : List ℕ)
    → n < 2 ^ 31
    → print_prev flags false p n ≡ show_run flags n p
unfolding print_prev
print_prev-show_run = printed

print_last-show_run :
    (flags : Flags) (n : ℕ) (p : List ℕ)
    → n < 2 ^ 31
    → print_last flags false p n ≡ show_run flags n p
unfolding print_last
print_last-show_run = printed

length-line : (l ls : List ℕ) → length (l ++ 10 ∷ ls) ≡ length l + 1 + length ls
length-line [] ls = omega arith
length-line (c ∷ l) ls = omega (arith, length-line l ls)

uniq_from-runs :
    (turns : ℕ) (ls : List (List ℕ)) (tail : List ℕ) (flags : Flags) (prev : List ℕ) (n : ℕ)
    → are_lines ls ≡ true
    → Stops tail
    → length (unlines ls) < turns
    → n + length ls < 2 ^ 31
    → uniq_from turns (unlines ls ++ tail) flags prev n false
      ≡ print_runs flags (runs_from flags prev n ls)
unfolding are_lines unlines runs_from print_runs
uniq_from-runs zero ls tail flags prev n g st h b = ground arith
uniq_from-runs (suc turns) [] tail flags prev n g st h b =
    let (rest, e) = read_line-stop tail st in
    uniq-turn turns tail flags prev n false ([], rest) e
    ∙ print_last-show_run flags n prev (omega (arith, b))
    ∙ sym (append-nil (show_run flags n prev))
uniq_from-runs (suc turns) (l ∷ ls) tail flags prev n g st h b =
    let e : read_line 1023 ((l ++ 10 ∷ unlines ls) ++ tail) ≡ (l, unlines ls ++ tail) =
      ap (read_line 1023) (append-line l (unlines ls) tail)
      ∙ read_line-line 1023 l (unlines ls ++ tail) (ground arith) (ground arith) in
    let some_bytes : lt_int 0 (length l) ≡ true = ground arith in
    let t = buffer_text-plain l (ground arith) in
    let shorter = length-line l (unlines ls) in
    uniq-turn turns ((l ++ 10 ∷ unlines ls) ++ tail) flags prev n false (l, unlines ls ++ tail) e
    ∙ rw (some_bytes, t)
        (elim (Bool-cases (is_same flags l prev)) [
          | inl same ↦
              let q : add32 n 1 ≡ n + 1 = omega (arith, b) in
              rw (same, q)
                (uniq_from-runs turns ls tail flags prev (n + 1) (ground arith) st
                  (omega (arith, h, shorter)) (omega (arith, b)))
          | inr new ↦ rw new (
              ap₂ (λ j k. j ++ k) (print_prev-show_run flags n prev (omega (arith, b)))
                (uniq_from-runs turns ls tail flags l 1 (ground arith) st
                  (omega (arith, h, shorter)) (omega (arith, b))))
        ])

length-append : (x y : List ℕ) → length (x ++ y) ≡ length x + length y
length-append [] y = omega arith
length-append (c ∷ x) y = omega (arith, length-append x y)

-- For lines that are not empty, of fewer than 1023 bytes other than newline and NUL, fewer than
-- 2^31 of them, and then the end of the input or an empty line and any more: `process_uniq`
-- prints, with any flags, the runs of lines that are the same as the first of their run, each as
-- its first line and a newline, after its length and a space with `-c`, and nothing for a single
-- line with `-d`.
pub process_uniq-runs :
    (ls : List (List ℕ)) (tail : List ℕ) (flags : Flags)
    → are_lines ls ≡ true
    → Stops tail
    → length ls < 2 ^ 31
    → process_uniq (unlines ls ++ tail) flags ≡ print_runs flags (runs flags ls)
unfolding process_uniq are_lines unlines runs print_runs print_prev print_last
process_uniq-runs [] tail flags g st b =
    let (rest, e) = read_line-stop tail st in
    let turns : length tail + 1 ≡ suc (length tail) = omega arith in
    ap (λ k. uniq_from k tail flags [] 0 true) turns
    ∙ uniq-turn (length tail) tail flags [] 0 true ([], rest) e
process_uniq-runs (l ∷ ls) tail flags g st b =
    let e : read_line 1023 ((l ++ 10 ∷ unlines ls) ++ tail) ≡ (l, unlines ls ++ tail) =
      ap (read_line 1023) (append-line l (unlines ls) tail)
      ∙ read_line-line 1023 l (unlines ls ++ tail) (ground arith) (ground arith) in
    let some_bytes : lt_int 0 (length l) ≡ true = ground arith in
    let t = buffer_text-plain l (ground arith) in
    let input = (l ++ 10 ∷ unlines ls) ++ tail in
    let n = length-append (l ++ 10 ∷ unlines ls) tail in
    let shorter = length-line l (unlines ls) in
    let turns : length ((l ++ 10 ∷ unlines ls) ++ tail) + 1
        ≡ suc (length ((l ++ 10 ∷ unlines ls) ++ tail)) =
      omega arith in
    ap (λ k. uniq_from k ((l ++ 10 ∷ unlines ls) ++ tail) flags [] 0 true) turns
    ∙ uniq-turn (length ((l ++ 10 ∷ unlines ls) ++ tail)) ((l ++ 10 ∷ unlines ls) ++ tail) flags []
        0 true (l, unlines ls ++ tail) e
    ∙ rw (some_bytes, t, print_prev)
        (uniq_from-runs (length ((l ++ 10 ∷ unlines ls) ++ tail)) ls tail flags l 1 (ground arith)
          st (omega (arith, n, shorter)) (omega (arith, b)))
