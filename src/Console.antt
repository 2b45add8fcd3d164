-- ===== src/Console.antt =====
-- console.c: the ring of typed bytes. What is shown on the screen, and the list of processes, are left
-- out. `consoleread` is cut where it sleeps.
pub mod Ring
pub mod Lines
pub mod Read
mod Tests
use os_project2_test.Prelude.{
  ℕ, zero, suc, ◌+◌, ◌-◌, ◌*◌, ◌%◌, ◌^◌, Bool, true, false, not, ◌&&◌, ◌||◌, List, [], ◌∷◌, ◌==◌,
  ltb, if◌then◌else◌, add32, sub32,
}

-- `input`, with `buf` as a function of the index
pub record Input : Type 0 where
  pub buf : ℕ → ℕ
  pub r : ℕ
  pub w : ℕ
  pub e : ℕ

abbrev pub store_byte : (ℕ → ℕ) → ℕ → ℕ → ℕ → ℕ
store_byte buf i c j = if i == j then c else buf j

-- `^U`; a turn for each byte is enough.
pub kill_line : ℕ → Input → Input
kill_line zero s = s
kill_line (suc turns) s =
    let rest = kill_line turns (record s { e = sub32 s.e 1 }) in
    if not (s.e == s.w) && not (s.buf (sub32 s.e 1 % 128) == 10) then rest else s

abbrev pub newline : ℕ → ℕ
newline c = if c == 13 then 10 else c

-- The byte is stored; the flag is `wakeup(&input.r)`.
pub store_key : Input → ℕ → Input × Bool
store_key s c =
    let s' = record s { buf = store_byte s.buf (s.e % 128) c; e = add32 s.e 1 } in
    if c == 10 || c == 4 || s'.e == add32 s.r 128
    then (record s' { w = s'.e }, true)
    else (s', false)

-- A turn of `consoleintr`, for a byte from `getc`.
pub console_key : Input → ℕ → Input × Bool
console_key s c =
    if c == 16
    then (s, false)
    else if c == 21
    then (kill_line 128 s, false)
    else if c == 8 || c == 127
    then (if not (s.e == s.w) then record s { e = sub32 s.e 1 } else s, false)
    else if not (c == 0) && ltb (sub32 s.e s.r) 128
    then store_key s (newline c)
    else (s, false)

-- The loop of `consoleintr`, for the bytes that `getc` gives.
pub consoleintr : List ℕ → Input → Input × Bool
consoleintr [] s = (s, false)
consoleintr (c ∷ cs) s =
    let (s', wakes) = console_key s c in
    let (s'', wakes') = consoleintr cs s' in (s'', wakes || wakes')

-- How a run of `consoleread` ends: with the bytes that it has copied; `sleeps` where the ring is empty
-- and the process sleeps, or gives up with -1 if it was killed.
pub record ReadRun : Type 0 where
  pub bytes : List ℕ
  pub input : Input
  pub sleeps : Bool

abbrev pub also : ℕ → ReadRun → ReadRun
also c run = record run { bytes = c ∷ run.bytes }

-- The loop of `consoleread`; `n` bytes are wanted still, and `some_read` is `n < target`.
pub console_read : ℕ → Bool → Input → ReadRun
console_read zero some_read s = record { bytes = []; input = s; sleeps = false }
console_read (suc n) some_read s =
    let c = s.buf (s.r % 128) in
    let s' = record s { r = add32 s.r 1 } in
    let rest = console_read n true s' in
    if s.r == s.w
    then record { bytes = []; input = s; sleeps = true }
    else if c == 4
    then record { bytes = []; input = if some_read then s else s'; sleeps = false }
    else if c == 10
    then record { bytes = c ∷ []; input = s'; sleeps = false }
    else also c rest
