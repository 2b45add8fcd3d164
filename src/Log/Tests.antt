-- ===== src/Log/Tests.antt =====
-- A transaction of two blocks, with the log at block 2.
use os_project2_test.Prelude.{
  ◌<◌, length, ◌≤◌, some, none, false, ℕ, ◌≡◌, refl, List, [], ◌∷◌, replicate, length-replicate,
  All, arith, ◌==◌, if◌then◌else◌,
}
use os_project2_test.Log.{Block, Io, read_words, commit}
use os_project2_test.Log.{Log, begin_op, log_write, absorb, logsize}
use os_project2_test.Log.Space.{Fits, Calls, start, begins, Calls-log_write}
use os_project2_test.Log.Phases.{IsAtomic, SameOutside, updated}
use os_project2_test.Log.Atomic.{IsReady, commit-IsAtomic}

abbrev blank : Block
blank = replicate 128 0

abbrev blocks : List ℕ
blocks = 40 ∷ 50 ∷ []

abbrev io : Io
io = record {
  disk = λ b. blank;
  cache = λ b. if b == 40 then 7 ∷ [] else if b == 50 then 8 ∷ [] else blank;
  past = [];
}

io-IsReady : IsReady 2 30 blocks io
unfolding read_words
io-IsReady = record {
  fits = omega arith;
  fits_header = omega arith;
  homes = (refl, (refl, tt));
  clear = refl;
  header = length-replicate {A = ℕ} 128 0;
  no_past = refl;
}

commit-IsAtomic_example :
    All (IsAtomic 2 30 blocks io.cache io.disk) (commit 2 blocks io).past
    × IsAtomic 2 30 blocks io.cache io.disk (commit 2 blocks io).disk
    × SameOutside 2 30 (commit 2 blocks io).disk (updated blocks io.cache io.disk)
commit-IsAtomic_example = commit-IsAtomic 2 30 blocks io io-IsReady

abbrev idle : Log
idle = record { start = 2; size = 30; outstanding = 0; committing = false; lh = [] }

idle-Fits : Fits 9 idle []
idle-Fits = record {
  room = omega arith;
  counted = refl;
  quiet = λ h. refl;
  small = tt;
  allowed = omega arith;
  size = omega arith;
}

abbrev begun : Log
begun = record idle { outstanding = 1 }

one_begun : Calls 9 idle begun (9 ∷ [])
unfolding begin_op
one_begun = begins start refl

Calls-log_write_example :
    (log_write begun 40 ≡ some (record begun { lh = absorb 40 [] }))
    × (length (absorb 40 []) ≤ logsize)
    × (length (absorb 40 []) < begun.size)
Calls-log_write_example = Calls-log_write [] [] 8 40 idle-Fits one_begun

-- With a log of 30 blocks, as mkfs makes it, the 30th block of a transaction is a panic.
full_log_panics : log_write (record begun { lh = replicate 29 7 }) 40 ≡ none
unfolding log_write
full_log_panics = refl
