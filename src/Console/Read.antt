-- ===== src/Console/Read.antt =====
-- What consoleread takes from the bytes that can be read.
use os_project2_test.Prelude.{
  ℕ, zero, suc, ◌%◌, ◌≡◌, refl, sym, ap, subst, Bool, true, false, List, [], ◌∷◌, ◌==◌,
  if◌then◌else◌, add32, sub32, arith, Bool-cases, inl, inr,
}
use os_project2_test.Console.{Input, ReadRun, console_read}
use os_project2_test.Console.Ring.{ring}
use os_project2_test.Console.Lines.{Lines, lines_of, IsValid}

-- A read of up to `n` bytes: to the end of a line, or before a `^D`, which is taken alone; `asleep` if
-- the bytes run out.
pub record Taken : Type 0 where
  pub bytes : List ℕ
  pub ready : List ℕ
  pub asleep : Bool

pub take_line : ℕ → Bool → List ℕ → Taken
take_line zero some_read l = record { bytes = []; ready = l; asleep = false }
take_line (suc n) some_read [] = record { bytes = []; ready = []; asleep = true }
take_line (suc n) some_read (c ∷ l) =
    let rest = take_line n true l in
    if c == 4
    then record { bytes = []; ready = if some_read then c ∷ l else l; asleep = false }
    else if c == 10
    then record { bytes = c ∷ []; ready = l; asleep = false }
    else record rest { bytes = c ∷ rest.bytes }

-- A run of the code is a read of the list.
pub record Reads (s : Input) (run : ReadRun) (t : Taken) : Type 0 where
  pub bytes : run.bytes ≡ t.bytes
  pub input : lines_of run.input ≡ record { ready = t.ready; line = (lines_of s).line }
  pub asleep : run.sleeps ≡ t.asleep
  pub valid : IsValid run.input

ready-cons :
    (s : Input)
    → IsValid s
    → (s.r == s.w) ≡ false
    → (ring s.buf s.r (sub32 s.w s.r)
        ≡ s.buf (s.r % 128) ∷ ring s.buf (add32 s.r 1) (sub32 s.w (add32 s.r 1)))
      × IsValid (record s { r = add32 s.r 1 })
unfolding ring
ready-cons s v h =
    let ok = v.words in
    let o = v.order in
    let m = v.room in
    let n : sub32 s.w s.r ≡ suc (sub32 s.w (add32 s.r 1)) = ground arith in
    (
      ap (ring s.buf s.r) n,
      record { words = ground arith; order = ground arith; room = ground arith; edits = v.edits },
    )

ready-empty : (s : Input) → IsValid s → (s.r == s.w) ≡ true → ring s.buf s.r (sub32 s.w s.r) ≡ []
unfolding ring
ready-empty s v h =
    let ok = v.words in let n : sub32 s.w s.r ≡ 0 = ground arith in ap (ring s.buf s.r) n

abbrev same_line : Input → List ℕ → Lines
same_line s l = record { ready = l; line = (lines_of s).line }

Reads-nil :
    (n : ℕ) (some_read : Bool) (s : Input)
    → IsValid s
    → (s.r == s.w) ≡ true
    → Reads s (console_read (suc n) some_read s) (take_line (suc n) some_read [])
unfolding console_read take_line
Reads-nil n some_read s v h = rw h (record {
  bytes = refl;
  input = ap (same_line s) (ready-empty s v h);
  asleep = refl;
  valid = v;
})

Reads-cons :
    (n : ℕ) (some_read : Bool) (s : Input)
    → IsValid s
    → (s.r == s.w) ≡ false
    → Reads
        (record s { r = add32 s.r 1 })
        (console_read n true (record s { r = add32 s.r 1 }))
        (take_line n true (ring s.buf (add32 s.r 1) (sub32 s.w (add32 s.r 1))))
    → Reads s (console_read (suc n) some_read s) (
        take_line
          (suc n)
          some_read
          (s.buf (s.r % 128) ∷ ring s.buf (add32 s.r 1) (sub32 s.w (add32 s.r 1))))
unfolding console_read take_line
Reads-cons n some_read s v h ih =
    let (e, v') = ready-cons s v h in
    elim (Bool-cases (s.buf (s.r % 128) == 4)) [
      | inl eof ↦ elim (Bool-cases some_read) [
        | inl b ↦
            rw (h, eof, b)
              (record { bytes = refl; input = ap (same_line s) e; asleep = refl; valid = v })
        | inr b ↦ rw (h, eof, b) (record { bytes = refl; input = refl; asleep = refl; valid = v' })
      ]
      | inr byte ↦ elim (Bool-cases (s.buf (s.r % 128) == 10)) [
        | inl end ↦
            rw (h, byte, end) (record { bytes = refl; input = refl; asleep = refl; valid = v' })
        | inr inside ↦
            rw (h, byte, inside)
              (record {
                bytes = ap (λ l. s.buf (s.r % 128) ∷ l) ih.bytes;
                input = ih.input;
                asleep = ih.asleep;
                valid = ih.valid;
              })
      ]
    ]

Reads-zero :
    (some_read : Bool) (s : Input)
    → IsValid s
    → Reads s (console_read zero some_read s) (take_line zero some_read (lines_of s).ready)
unfolding console_read take_line
Reads-zero some_read s v = record { bytes = refl; input = refl; asleep = refl; valid = v }

-- For a ring whose indices are in order, `consoleread` takes from the front of the bytes that
-- can be read, up to a newline or the count asked for, stops before a ^D unless it is the first
-- byte, which it takes alone, sleeps when the bytes run out, and leaves the edited line as it
-- was.
pub console_read-lines :
    (n : ℕ) (some_read : Bool) (s : Input)
    → IsValid s
    → Reads s (console_read n some_read s) (take_line n some_read (lines_of s).ready)
console_read-lines zero some_read s v = Reads-zero some_read s v
console_read-lines (suc n) some_read s v = elim (Bool-cases (s.r == s.w)) [
  | inl empty ↦
      subst (λ l. Reads s (console_read (suc n) some_read s) (take_line (suc n) some_read l))
        (sym (ready-empty s v empty)) (Reads-nil n some_read s v empty)
  | inr more ↦
      let (e, v') = ready-cons s v more in
      subst (λ l. Reads s (console_read (suc n) some_read s) (take_line (suc n) some_read l))
        (sym e)
        (Reads-cons n some_read s v more
          (console_read-lines n true (record s { r = add32 s.r 1 }) v'))
]
