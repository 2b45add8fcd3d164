-- ===== src/Pipe.antt =====
-- pipe.c. `pipewrite` and `piperead` are cut where they sleep: a function here runs from a call, or
-- from the wake-up after a sleep, to the return or to the next sleep. The pipe's lock is held all
-- that time, so each such run is one step. `nread` and `nwrite` are `uint`s and go round at 2^32.
pub mod Window
pub mod Fifo
mod Tests
use os_project2_test.Prelude.{
  ℕ, zero, suc, ◌%◌, Bool, true, false, not, ◌&&◌, ◌||◌, Option, none, some, List, [], ◌∷◌, ◌==◌,
  if◌then◌else◌, get_or, set, replicate, add32,
}

-- `struct pipe`
pub record Pipe : Type 0 where
  pub buf : List ℕ
  pub nread : ℕ
  pub nwrite : ℕ
  pub readopen : Bool
  pub writeopen : Bool

-- The two sleep channels, `&p->nread` and `&p->nwrite`.
pub data Sleepers : Type 0 where
  readers writers : Sleepers

-- A run of `pipewrite` returns n, returns -1, or sleeps with bytes left to write.
pub data Wrote : Type 0 where
  wrote_all : Pipe → List Sleepers → Wrote
  write_fails : Pipe → Wrote
  write_sleeps : Pipe → List ℕ → List Sleepers → Wrote

-- `p->data[p->nwrite++ % PIPESIZE] = addr[i]`
abbrev pub put : Pipe → ℕ → Pipe
put p x = record p { buf = set p.buf (p.nwrite % 512) x; nwrite = add32 p.nwrite 1 }

abbrev pub is_full : Pipe → Bool
is_full p = p.nwrite == add32 p.nread 512

pub pipewrite : Bool → Pipe → List ℕ → Wrote
pipewrite killed p [] = wrote_all p (readers ∷ [])
pipewrite killed p (x ∷ xs) =
    let rest = pipewrite killed (put p x) xs in
    if is_full p
    then if not p.readopen || killed then write_fails p else write_sleeps p (x ∷ xs) (readers ∷ [])
    else rest

-- A run of `piperead` returns the bytes read, returns -1, or sleeps.
pub data ReadResult : Type 0 where
  read_bytes : List ℕ → Pipe → List Sleepers → ReadResult
  read_fails : Pipe → ReadResult
  read_sleeps : Pipe → ReadResult

abbrev pub is_empty : Pipe → Bool
is_empty p = p.nread == p.nwrite

-- `addr[i] = p->data[p->nread++ % PIPESIZE]`
abbrev pub front : Pipe → ℕ
front p = get_or p.buf (p.nread % 512) 0

abbrev pub drop_front : Pipe → Pipe
drop_front p = record p { nread = add32 p.nread 1 }

-- The copy loop, with the rounds left.
pub copy_out : Pipe → ℕ → List ℕ × Pipe
copy_out p zero = ([], p)
copy_out p (suc n) =
    let (bytes, p') = copy_out (drop_front p) n in
    if is_empty p then ([], p) else (front p ∷ bytes, p')

pub piperead : Bool → Pipe → ℕ → ReadResult
piperead killed p n =
    if is_empty p && p.writeopen
    then if killed then read_fails p else read_sleeps p
    else let (bytes, p') = copy_out p n in read_bytes bytes p' (writers ∷ [])

-- The pipe afterwards, who is woken, and whether its page is freed.
pub pipeclose : Pipe → Bool → Pipe × Sleepers × Bool
pipeclose p writable =
    let p' = if writable then record p { writeopen = false } else record p { readopen = false } in
    (p', if writable then readers else writers, not p'.readopen && not p'.writeopen)

-- The pipe that `pipealloc` makes of a page with this buffer.
abbrev pub new_pipe : List ℕ → Pipe
new_pipe buf = record { buf = buf; nread = 0; nwrite = 0; readopen = true; writeopen = true }

-- `pipealloc` gives both files and the page, or the files to close again. The arguments are the
-- answers of the two calls of `filealloc`, of which the second is made only after the first has
-- succeeded, and of `kalloc`.
pub data Allocated : Type 0 where
  made : (reader writer page : ℕ) → Allocated
  undone : List ℕ → Allocated

pub pipealloc : Option ℕ → Option ℕ → Option ℕ → Allocated
pipealloc none f1 page = undone []
pipealloc (some f0) none page = undone (f0 ∷ [])
pipealloc (some f0) (some f1) none = undone (f0 ∷ f1 ∷ [])
pipealloc (some f0) (some f1) (some p) = made f0 f1 p
