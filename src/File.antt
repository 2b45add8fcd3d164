-- ===== src/File.antt =====
-- file.c: the table of open files. A file's `ref` is an `int`. What `fileclose` does to a pipe or an
-- inode after the last reference goes is returned.
pub mod Refs
mod Tests
use os_project2_test.Prelude.{
  ℕ, zero, suc, Bool, true, false, Option, none, some, List, [], ◌∷◌, ◌==◌, if◌then◌else◌,
  get_elem?, modify, find_index, add32, sub32, lt_int,
}

-- The `type` of a file.
pub data FileType : Type 0 where
  fd_none fd_pipe fd_inode : FileType

-- `struct file`
pub record File : Type 0 where
  pub type : FileType
  pub ref : ℕ
  pub readable : Bool
  pub writable : Bool
  pub pipe : ℕ
  pub ip : ℕ
  pub off : ℕ

-- What is left to do when the last reference has gone: `pipeclose(pipe, writable)`, or
-- `begin_op(); iput(ip); end_op();`.
pub data Closing : Type 0 where
  nothing : Closing
  close_pipe : (pipe : ℕ) (writable : Bool) → Closing
  put_inode : (ip : ℕ) → Closing

unfoldable pub filealloc : List File → Option ℕ × List File
filealloc table = elim (find_index (λ (f : File). f.ref == 0) table) [
  | none ↦ (none, table)
  | some i ↦ (some i, modify i (λ f. record f { ref = 1 }) table)
]

-- `none` is a panic, or no such file.
unfoldable pub filedup : List File → ℕ → Option (List File)
filedup table i = elim (get_elem? table i) [
  | none ↦ none
  | some f ↦
      if lt_int f.ref 1 then none else some (modify i (λ f. record f { ref = add32 f.ref 1 }) table)
]

abbrev pub closing : File → Closing
closing f = elim f.type [
  | fd_none ↦ nothing
  | fd_pipe ↦ close_pipe f.pipe f.writable
  | fd_inode ↦ put_inode f.ip
]

-- `none` is a panic, or no such file.
unfoldable pub fileclose : List File → ℕ → Option (List File × Closing)
fileclose table i = elim (get_elem? table i) [
  | none ↦ none
  | some f ↦
      let left = sub32 f.ref 1 in
      if lt_int f.ref 1
      then none
      else if lt_int 0 left
      then some (modify i (λ f. record f { ref = sub32 f.ref 1 }) table, nothing)
      else some (modify i (λ f. record f { ref = 0; type = fd_none }) table, closing f)
]
