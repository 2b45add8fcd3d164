-- ===== src/Pipe/Tests.antt =====
-- A pipe whose write counter is about to go round.
use os_project2_test.Prelude.{
  ℕ, ◌≡◌, ◌≤◌, ◌^◌, ◌-◌, false, List, [], ◌∷◌, ◌++◌, length, replicate, length-replicate, arith,
}
use os_project2_test.Pipe.{Pipe, new_pipe, pipewrite}
use os_project2_test.Pipe.Window.{IsValid, contents}
use os_project2_test.Pipe.Fifo.{stored, pipe_after, start, writes, Trace-fifo}

abbrev buffer : List ℕ
buffer = replicate 512 0

abbrev late : Pipe
late = record (new_pipe buffer) { nread = 2 ^ 32 - 1; nwrite = 2 ^ 32 - 1 }

late-IsValid : IsValid late
late-IsValid = record {
  storage = length-replicate {A = ℕ} 512 0;
  read_word = omega arith;
  write_word = omega arith;
  bounded = ground arith;
}

abbrev bytes : List ℕ
bytes = 7 ∷ 8 ∷ 9 ∷ []

abbrev filled : Pipe
filled = pipe_after (pipewrite false late bytes)

Trace-fifo_example :
    IsValid filled
    × (contents late ++ ([] ++ stored late bytes) ≡ [] ++ contents filled)
    × (length (contents filled) ≤ 512)
Trace-fifo_example = Trace-fifo late-IsValid (writes false bytes start)
