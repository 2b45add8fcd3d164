-- ===== src/Sysfile.antt =====
-- sysfile.c: the calls on file descriptors. A process's `ofile` has an index in the table of files, or
-- nothing, for each descriptor; `others` has the tables of the other processes. An argument is what
-- argint answers; a result is an `int`, -1 included. What fileclose leaves to do is returned.
pub mod Counts
mod Tests
use os_project2_test.Prelude.{
  ℕ, zero, suc, ◌+◌, ◌-◌, ◌*◌, ◌/◌, ◌%◌, ◌^◌, Bool, true, false, not, ◌&&◌, ◌||◌, Option, none,
  some, List, [], ◌∷◌, ◌==◌, if◌then◌else◌, get_elem?, modify, find_index, length, add32, lt_int,
  le_int, minus_one,
}
use os_project2_test.File.{
  File, FileType, fd_pipe, fd_inode, Closing, filealloc, filedup, fileclose,
}
use os_project2_test.Syscall.{Memory, fetchint, fetchstr}

abbrev pub Ofile : Type 0
Ofile = List (Option ℕ)

pub record World : Type 0 where
  pub ofile : Ofile
  pub others : List Ofile
  pub files : List File

-- `NOFILE`
abbrev pub nofile : ℕ
nofile = 16

pub argfd : Ofile → Option ℕ → Option (ℕ × ℕ)
argfd ofile arg = elim arg [
  | none ↦ none
  | some fd ↦
      if lt_int fd 0 || le_int nofile fd
      then none
      else elim (get_elem? ofile fd) [ some (some f) ↦ some (fd, f) | _ ↦ none ]
]

abbrev pub is_free : Option ℕ → Bool
is_free d = elim d [ none ↦ true | some f ↦ false ]

pub fdalloc : Ofile → ℕ → Option (ℕ × Ofile)
fdalloc ofile f = elim (find_index is_free ofile) [
  | none ↦ none
  | some fd ↦ some (fd, modify fd (λ d. some f) ofile)
]

-- `none` is a panic.
pub sys_dup : World → Option ℕ → Option (ℕ × World)
sys_dup w arg = elim (argfd w.ofile arg) [
  | none ↦ some (minus_one, w)
  | some (fd, f) ↦ elim (fdalloc w.ofile f) [
    | none ↦ some (minus_one, w)
    | some (fd', ofile) ↦ elim (filedup w.files f) [
      | none ↦ none
      | some files ↦ some (fd', record w { ofile = ofile; files = files })
    ]
  ]
]

-- `none` is a panic.
pub sys_close : World → Option ℕ → Option (ℕ × Closing × World)
sys_close w arg = elim (argfd w.ofile arg) [
  | none ↦ some (minus_one, Closing.nothing, w)
  | some (fd, f) ↦ elim (fileclose w.files f) [
    | none ↦ none
    | some (files, c) ↦
        some (0, c, record w { ofile = modify fd (λ d. none) w.ofile; files = files })
  ]
]

-- A file that is closed again, of which nothing is left to do.
pub give_back : List File → ℕ → Option (List File)
give_back files f = elim (fileclose files f) [ none ↦ none | some (files', c) ↦ some files' ]

abbrev pub set_pipe : Bool → ℕ → File → File
set_pipe writes p f = record f {
  type = fd_pipe;
  readable = not writes;
  writable = writes;
  pipe = p;
}

-- The second file of a pipe, and its page. The outer `none` is a panic, the inner one the answer -1.
pub open_writer : ℕ → Option ℕ → Option ℕ × List File → Option (Option (ℕ × ℕ) × List File)
open_writer r page (none, files) = elim (give_back files r) [
  | none ↦ none
  | some files' ↦ some (none, files')
]
open_writer r none (some w, files) = elim (give_back files r) [
  | none ↦ none
  | some files' ↦ elim (give_back files' w) [ none ↦ none | some files'' ↦ some (none, files'') ]
]
open_writer r (some p) (some w, files) =
    some (some (r, w), modify w (set_pipe true p) (modify r (set_pipe false p) files))

pub open_reader : Option ℕ → Option ℕ × List File → Option (Option (ℕ × ℕ) × List File)
open_reader page (none, files) = some (none, files)
open_reader page (some r, files) = open_writer r page (filealloc files)

-- `pipealloc` on the table of files; `page` is the answer of kalloc.
pub open_pipe : List File → Option ℕ → Option (Option (ℕ × ℕ) × List File)
open_pipe files page = open_reader page (filealloc files)

-- The two files closed again, the pipe with them.
pub close_both : World → ℕ → ℕ → Option (Option (ℕ × ℕ) × List Closing × World)
close_both w r wr = elim (fileclose w.files r) [
  | none ↦ none
  | some (files, c) ↦ elim (fileclose files wr) [
    | none ↦ none
    | some (files', c') ↦ some (none, c ∷ c' ∷ [], record w { files = files' })
  ]
]

-- The descriptors of both ends.
pub place_pipe : World → ℕ → ℕ → Option (Option (ℕ × ℕ) × List Closing × World)
place_pipe w r wr = elim (fdalloc w.ofile r) [
  | none ↦ close_both w r wr
  | some (fd0, ofile) ↦ elim (fdalloc ofile wr) [
    | none ↦ close_both (record w { ofile = modify fd0 (λ d. none) ofile }) r wr
    | some (fd1, ofile') ↦ some (some (fd0, fd1), [], record w { ofile = ofile' })
  ]
]

-- `args` is whether argptr finds the place for the two descriptors, which are returned; the outer
-- `none` is a panic.
pub sys_pipe : World → Bool → Option ℕ → Option (Option (ℕ × ℕ) × List Closing × World)
sys_pipe w args page = if not args then some (none, [], w) else elim (open_pipe w.files page) [
  | none ↦ none
  | some (made, files) ↦ elim made [
    | none ↦ some (none, [], record w { files = files })
    | some (r, wr) ↦ place_pipe (record w { files = files }) r wr
  ]
]

-- What `namei`, or `create` of a file, finds; `none` is 0.
pub record Node : Type 0 where
  pub ip : ℕ
  pub is_dir : Bool

abbrev pub set_inode : ℕ → ℕ → File → File
set_inode ip omode f = record f {
  type = fd_inode;
  ip = ip;
  off = 0;
  readable = not (omode % 2 == 1);
  writable = omode % 2 == 1 || omode / 2 % 2 == 1;
}

-- A file and a descriptor for an inode: the result, the inodes that are given up (`iunlockput`), and
-- the state. `none` is a panic.
pub open_file : World → ℕ → ℕ → Option ℕ × List File → Option (ℕ × List ℕ × World)
open_file w omode ip (none, files) = some (minus_one, ip ∷ [], record w { files = files })
open_file w omode ip (some f, files) = elim (fdalloc w.ofile f) [
  | none ↦ elim (give_back files f) [
    | none ↦ none
    | some files' ↦ some (minus_one, ip ∷ [], record w { files = files' })
  ]
  | some (fd, ofile) ↦
      some (fd, [], record w { ofile = ofile; files = modify f (set_inode ip omode) files })
]

-- `sys_open` behind the path, from the test of the inode's type on; no node is a path that has given
-- no inode. With `O_CREATE` the node is a file that `create` gives.
pub open_node : World → ℕ → Option Node → Option (ℕ × List ℕ × World)
open_node w omode node = elim node [
  | none ↦ some (minus_one, [], w)
  | some n ↦
      if not (omode / 512 % 2 == 1) && n.is_dir && not (omode == 0)
      then some (minus_one, n.ip ∷ [], w)
      else open_file w omode n.ip (filealloc w.files)
]

-- The loop of `sys_exec`: the pointers in `uargv` from `i` on, of which `left` fit; `none` is -1.
pub fetch_args : ℕ → Memory → ℕ → ℕ → ℕ → Option (List (ℕ × ℕ))
fetch_args zero m sz uargv i = none
fetch_args (suc left) m sz uargv i =
    let rest = fetch_args left m sz uargv (suc i) in
    elim (fetchint m sz (add32 uargv (4 * i))) [
      | none ↦ none
      | some uarg ↦ if uarg == 0 then some [] else elim (fetchstr m sz uarg) [
        | none ↦ none
        | some arg ↦ elim rest [ none ↦ none | some args ↦ some (arg ∷ args) ]
      ]
    ]

-- The copy of the descriptors in `fork`: the calls of filedup. `none` is a panic.
pub dup_all : Ofile → List File → Option (List File)
dup_all [] files = some files
dup_all (none ∷ ofile) files = dup_all ofile files
dup_all (some f ∷ ofile) files = elim (filedup files f) [
  | none ↦ none
  | some files' ↦ dup_all ofile files'
]
