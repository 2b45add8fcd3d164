-- ===== src/Pipe/Fifo.antt =====
-- A pipe is a first-in first-out queue of at most 512 bytes, whatever its two counters have wrapped.
use os_project2_test.Prelude.{
  ℕ, zero, suc, ◌<◌, ◌≤◌, ◌≡◌, ◌≢◌, refl, ap, sym, ◌∙◌, subst, Bool, true, false, not, ◌&&◌, ◌||◌,
  List, [], ◌∷◌, ◌++◌, append_assoc, append-nil, length, min, arith, if◌then◌else◌, Bool-cases, inl,
  inr,
}
use os_project2_test.Pipe.{
  Pipe, Sleepers, put, is_full, is_empty, front, drop_front, readers, writers, Wrote, wrote_all,
  write_fails, write_sleeps, pipewrite, ReadResult, read_bytes, read_fails, read_sleeps, copy_out,
  piperead, pipeclose,
}
use os_project2_test.Pipe.Window.{
  count, contents, IsValid, put-IsValid, contents-put, drop_front-IsValid, contents-drop_front,
  length-window, window,
}

-- The bytes that a run of `pipewrite` stores before it ends.
pub stored : Pipe → List ℕ → List ℕ
stored p [] = []
stored p (x ∷ xs) = let rest = stored (put p x) xs in if is_full p then [] else x ∷ rest

abbrev pub pipe_after : Wrote → Pipe
pipe_after (wrote_all p _) = p
pipe_after (write_fails p) = p
pipe_after (write_sleeps p _ _) = p

-- How a run ends, with `rest` not stored: all is written; or the pipe is full, and the run fails if
-- nobody will read or the process is killed, and else sleeps with the rest. Readers are woken unless
-- it fails.
abbrev pub Ending : Bool → List ℕ → Wrote → Type 0
Ending killed rest (wrote_all p woken) = (rest ≡ []) × (woken ≡ readers ∷ [])
Ending killed rest (write_fails p) =
    (rest ≢ []) × (count p ≡ 512) × (not p.readopen || killed ≡ true)
Ending killed rest (write_sleeps p left woken) =
    (left ≡ rest)
    × (rest ≢ [])
    × (count p ≡ 512)
    × (not p.readopen || killed ≡ false)
    × (woken ≡ readers ∷ [])

full_count : (p : Pipe) → IsValid p → is_full p ≡ true → count p ≡ 512
full_count p v h = ground arith

room_count : (p : Pipe) → IsValid p → is_full p ≡ false → count p < 512
room_count p v h = ground arith

-- On a valid pipe a run of `pipewrite` stores a first part of its bytes behind those in the
-- pipe, and the pipe stays valid; it ends with all written and readers woken, or with the pipe
-- full and bytes left: it then fails if nobody will read or the process is killed, and else
-- sleeps with readers woken.
pub pipewrite_fifo :
    (killed : Bool) (p : Pipe) (xs : List ℕ)
    → IsValid p
    → (rest : List ℕ) × (xs ≡ stored p xs ++ rest)
      × IsValid (pipe_after (pipewrite killed p xs))
      × (contents (pipe_after (pipewrite killed p xs)) ≡ contents p ++ stored p xs)
      × Ending killed rest (pipewrite killed p xs)
unfolding pipewrite stored
pipewrite_fifo killed p [] v = ([], refl, v, sym (append-nil (contents p)), (refl, refl))
pipewrite_fifo killed p (x ∷ xs) v = elim (Bool-cases (is_full p)) [
  | inl full ↦ elim (Bool-cases (not p.readopen || killed)) [
    | inl fails ↦
        rw (full, fails)
          (x ∷ xs, refl, v, sym (append-nil (contents p)), ((λ e. cc), full_count p v full, fails))
    | inr waits ↦
        rw (full, waits)
          (
            x ∷ xs,
            refl,
            v,
            sym (append-nil (contents p)),
            (refl, (λ e. cc), full_count p v full, waits, refl),
          )
  ]
  | inr room ↦
      let (rest, parts, valid, fifo, ending) =
        pipewrite_fifo killed (put p x) xs (put-IsValid p x v (room_count p v room)) in
      rw room (
        rest,
        ap (λ t. x ∷ t) parts,
        valid,
        fifo
            ∙ ap (λ t. t ++ stored (put p x) xs) (contents-put p x v (room_count p v room))
            ∙ append_assoc (contents p) (x ∷ []) (stored (put p x) xs),
        ending,
      )
]

empty_count : (p : Pipe) → IsValid p → is_empty p ≡ true → count p ≡ 0
empty_count p v h = ground arith

filled_count : (p : Pipe) → IsValid p → is_empty p ≡ false → 0 < count p
filled_count p v h = ground arith

empty_contents : (p : Pipe) → IsValid p → is_empty p ≡ true → contents p ≡ []
empty_contents p v h = ap (window p.buf p.nread) (empty_count p v h)

copy_out_fifo :
    (p : Pipe) (n : ℕ)
    → IsValid p
    → let (bytes, p') = copy_out p n in
      (contents p ≡ bytes ++ contents p') × (length bytes ≡ min n (count p)) × IsValid p'
unfolding copy_out
copy_out_fifo p zero v = (refl, omega arith, v)
copy_out_fifo p (suc n) v = elim (Bool-cases (is_empty p)) [
  | inl e ↦ rw e (refl, omega (arith, empty_count p v e), v)
  | inr e ↦
      let pos = filled_count p v e in
      let (fifo, len, valid) = copy_out_fifo (drop_front p) n (drop_front-IsValid p v pos) in
      rw e (contents-drop_front p v pos ∙ ap (λ t. front p ∷ t) fifo, omega arith, valid)
]

-- What a run of `piperead` gives: bytes from the front, as many as asked for or as there are, with
-- the writers woken; or nothing, while the pipe is empty and can still be written to.
abbrev pub Reads : Bool → Pipe → ℕ → ReadResult → Type 0
Reads killed p n (read_bytes bytes p' woken) =
    (contents p ≡ bytes ++ contents p')
    × (length bytes ≡ min n (count p))
    × IsValid p'
    × (woken ≡ writers ∷ [])
Reads killed p n (read_fails p') =
    (p' ≡ p) × (contents p ≡ []) × (killed ≡ true) × (p.writeopen ≡ true)
Reads killed p n (read_sleeps p') =
    (p' ≡ p) × (contents p ≡ []) × (killed ≡ false) × (p.writeopen ≡ true)

copied :
    (p : Pipe) (n : ℕ)
    → IsValid p
    → let (bytes, p') = copy_out p n in
      (contents p ≡ bytes ++ contents p')
      × (length bytes ≡ min n (count p))
      × IsValid p'
      × ◌≡◌ {A = List Sleepers} (writers ∷ []) (writers ∷ [])
copied p n v = let (fifo, len, valid) = copy_out_fifo p n v in (fifo, len, valid, refl)

-- On a valid pipe a run of `piperead` gives bytes from the front, as many as asked for or as
-- there are, with writers woken and the pipe valid; or changes nothing on an empty pipe that is
-- open for writing, and fails if the process is killed and else sleeps.
pub piperead_fifo :
    (killed : Bool) (p : Pipe) (n : ℕ) → IsValid p → Reads killed p n (piperead killed p n)
unfolding piperead
piperead_fifo killed p n v = elim (Bool-cases (is_empty p && p.writeopen)) [
  | inl t ↦ elim (Bool-cases killed) [
    | inl d ↦ rw (t, d) (refl, empty_contents p v (ground arith), refl, ground arith)
    | inr d ↦ rw (t, d) (refl, empty_contents p v (ground arith), refl, ground arith)
  ]
  | inr t ↦ rw t (copied p n v)
]

-- The runs of a pipe's readers and writers, and the closing of an end, in any order: the bytes stored so far, the bytes read so
-- far, and the pipe.
pub data Trace (p : Pipe) : List ℕ → List ℕ → Pipe → Type 0 where
  start : Trace p [] [] p
  writes :
      {i o : List ℕ} {q : Pipe} (killed : Bool) (xs : List ℕ)
      → Trace p i o q
      → Trace p (i ++ stored q xs) o (pipe_after (pipewrite killed q xs))
  reads :
      {i o : List ℕ} {q : Pipe} (killed : Bool) (n : ℕ) (bytes : List ℕ) (q' : Pipe)
      (woken : List Sleepers)
      → Trace p i o q
      → piperead killed q n ≡ read_bytes bytes q' woken
      → Trace p i (o ++ bytes) q'
  closes :
      {i o : List ℕ} {q : Pipe} (writable : Bool)
      → Trace p i o q
      → Trace p i o (pipeclose q writable).0

pipeclose-fifo :
    (q : Pipe) (writable : Bool)
    → IsValid q
    → IsValid (pipeclose q writable).0 × (contents (pipeclose q writable).0 ≡ contents q)
unfolding pipeclose
pipeclose-fifo q true v = (
  record {
    storage = v.storage;
    read_word = v.read_word;
    write_word = v.write_word;
    bounded = v.bounded;
  },
  refl,
)
pipeclose-fifo q false v = (
  record {
    storage = v.storage;
    read_word = v.read_word;
    write_word = v.write_word;
    bounded = v.bounded;
  },
  refl,
)

few : (p : Pipe) → IsValid p → length (contents p) ≤ 512
few p v = omega (arith, length-window p.buf p.nread (count p))

-- After any sequence of runs of readers and writers and closings of an end on a valid pipe, what
-- was in it followed by what was stored is what was read followed by what is in it, the pipe is
-- valid and holds at most 512 bytes.
pub Trace-fifo :
    {p q : Pipe} {i o : List ℕ}
    → IsValid p
    → Trace p i o q
    → IsValid q × (contents p ++ i ≡ o ++ contents q) × (length (contents q) ≤ 512)
Trace-fifo {p} v start = (v, append-nil (contents p), few p v)
Trace-fifo {p} v (writes {i} {o} {q} killed xs t) =
    let (w, fifo, _) = Trace-fifo v t in
    let (rest, parts, valid, more, ending) = pipewrite_fifo killed q xs w in
    (
      valid,
      sym (append_assoc (contents p) i (stored q xs))
          ∙ ap (λ s. s ++ stored q xs) fifo
          ∙ append_assoc o (contents q) (stored q xs)
          ∙ ap (λ s. o ++ s) (sym more),
      few _ valid,
    )
Trace-fifo {p} v (reads {i} {o} {q} killed n bytes q' woken t e) =
    let (w, fifo, _) = Trace-fifo v t in
    let (parts, len, valid, _) = subst (Reads killed q n) e (piperead_fifo killed q n w) in
    (valid, fifo ∙ ap (λ s. o ++ s) parts ∙ sym (append_assoc o bytes (contents q')), few q' valid)
Trace-fifo {p} v (closes {i} {o} {q} writable t) =
    let (w, fifo, _) = Trace-fifo v t in
    let (valid, same) = pipeclose-fifo q writable w in
    (valid, fifo ∙ ap (λ s. o ++ s) (sym same), few _ valid)
