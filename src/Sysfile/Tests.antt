-- ===== src/Sysfile/Tests.antt =====
-- Examples for the calls on descriptors.
use os_project2_test.Prelude.{
  ℕ, zero, suc, ◌≡◌, ◌≢◌, ◌+◌, refl, Bool, true, false, Option, none, some, [], ◌∷◌, ◌==◌,
  if◌then◌else◌, find_index, arith,
}
use os_project2_test.File.{File, fd_inode, filealloc, filedup}
use os_project2_test.File.Refs.{ref_at}
use os_project2_test.Syscall.{Memory, fetchint, fetchstr, find_nul}
use os_project2_test.Sysfile.{
  World, Node, argfd, fdalloc, open_pipe, open_reader, sys_dup, sys_close, sys_pipe, open_node,
  fetch_args,
}
use os_project2_test.Sysfile.Counts.{uses, uses_all, slots, IsCounted}
use os_project2_test.Sysfile.Counts.Trace.{Calls, start, dups, Calls-IsCounted, Calls-no_panic}

abbrev file_of : ℕ → File
file_of n = record {
  type = fd_inode;
  ref = n;
  readable = true;
  writable = false;
  pipe = 0;
  ip = 5;
  off = 0;
}

-- One process with a file at descriptor 0, and room for one more.
abbrev one_file : World
one_file = record { ofile = some 0 ∷ none ∷ []; others = []; files = file_of 1 ∷ [] }

abbrev duplicated : World
duplicated = record { ofile = some 0 ∷ some 0 ∷ []; others = []; files = file_of 2 ∷ [] }

one_file-IsCounted : IsCounted one_file
unfolding uses uses_all slots
one_file-IsCounted = record { counts = λ i. counts i; few = omega arith }
  where
    counts : (i : ℕ) → ref_at one_file.files i ≡ uses i one_file.ofile + uses_all i one_file.others
    counts zero = refl
    counts (suc i) = ground arith

a_dup : Calls one_file duplicated
unfolding sys_dup argfd fdalloc filedup find_index
a_dup = dups {w₂ = duplicated} (some 0) 1 start refl

Calls-IsCounted_example : IsCounted duplicated
Calls-IsCounted_example = Calls-IsCounted a_dup one_file-IsCounted

Calls-no_panic_example :
    ((arg : Option ℕ) → sys_dup duplicated arg ≢ none)
    × ((arg : Option ℕ) → sys_close duplicated arg ≢ none)
    × ((args : Bool) (page : Option ℕ) → sys_pipe duplicated args page ≢ none)
    × ((omode : ℕ) (node : Option Node) → open_node duplicated omode node ≢ none)
Calls-no_panic_example = Calls-no_panic a_dup one_file-IsCounted

-- No file is left for a pipe.
pipe_undone : sys_pipe one_file true (some 4096) ≡ some (none, [], one_file)
unfolding sys_pipe open_pipe open_reader filealloc find_index
pipe_undone = refl

-- The words 20 and 0, and the text "a" at 20.
abbrev arguments : Memory
arguments a = if a == 0 then 20 else if a == 20 then 97 else 0

two_arguments : fetch_args 32 arguments 64 0 0 ≡ some ((20, 1) ∷ [])
unfolding fetch_args fetchint fetchstr find_nul
two_arguments = refl
