-- ===== src/File/Tests.antt =====
-- A table of two files: a pipe that is held twice, and a free entry.
use os_project2_test.Prelude.{ℕ, zero, suc, refl, true, false, List, [], ◌∷◌, arith, find_index}
use os_project2_test.File.{File, fd_none, fd_pipe, filealloc}
use os_project2_test.File.Refs.{Counted, Use, done, allocates}

abbrev free : File
free = record {
  type = fd_none;
  ref = 0;
  readable = false;
  writable = false;
  pipe = 0;
  ip = 0;
  off = 0;
}

abbrev end_of_pipe : File
end_of_pipe = record free { type = fd_pipe; ref = 2; writable = true; pipe = 4096 }

abbrev table : List File
table = end_of_pipe ∷ free ∷ []

abbrev refs : List ℕ
refs = 0 ∷ 0 ∷ []

table-Counted : Counted table refs
table-Counted zero = refl
table-Counted (suc zero) = refl
table-Counted (suc (suc i)) = ground arith

abbrev opened : List File
opened = end_of_pipe ∷ record free { ref = 1 } ∷ []

opened_file : Use table refs opened (1 ∷ 0 ∷ 0 ∷ [])
unfolding filealloc find_index
opened_file = allocates 1 done refl
