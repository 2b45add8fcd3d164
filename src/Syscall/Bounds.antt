-- ===== src/Syscall/Bounds.antt =====
-- What a process passes to the kernel lies in its own memory.
use os_project2_test.Prelude.{
  ℕ, zero, suc, ◌+◌, ◌-◌, ◌^◌, ◌≡◌, ◌≤◌, ◌<◌, ◌↔◌, Bool, true, not, ◌&&◌, ◌||◌, some, ◌==◌, ltb,
  leb, add32, lt_int, arith, Bool-cases, Option-cases, inl, inr,
}
use os_project2_test.Syscall.{
  Memory, read_word, fetchint, find_nul, fetchstr, argint, argptr, argstr,
}

-- In a memory of at most 2^31 bytes, `fetchint` gives the word at an address exactly if all four
-- of its bytes lie in the memory.
pub fetchint_iff :
    (m : Memory) (sz addr v : ℕ)
    → sz ≤ 2 ^ 31
    → (fetchint m sz addr ≡ some v) ↔ ((addr + 4 ≤ sz) × (v ≡ read_word m addr))
unfolding fetchint
fetchint_iff m sz addr v h = elim (Bool-cases (leb sz addr || ltb sz (add32 addr 4))) [
  | inl out ↦ (λ e. ground arith, λ d. let l = d.0 in ground arith)
  | inr in_memory ↦ (λ e. ground arith, λ d. let v_is = d.1 in ground arith)
]

-- In a memory of at most 2^31 bytes and for a 32-bit size, `argptr` gives the argument exactly
-- if the size is not negative as an `int`, the pointer lies in the memory and so does the block
-- of that size from it on.
pub argptr_iff :
    (m : Memory) (sz esp n size p : ℕ)
    → sz ≤ 2 ^ 31
    → size < 2 ^ 32
    → (argptr m sz esp n size ≡ some p)
      ↔ ((argint m sz esp n ≡ some p) × (size < 2 ^ 31) × (p < sz) × (p + size ≤ sz))
unfolding argptr
argptr_iff m sz esp n size p h w = elim (Option-cases (argint m sz esp n)) [
  | inl q ↦ (λ e. ground arith, λ d. let e = d.0 in ground arith)
  | inr (i, q) ↦ elim (Bool-cases (lt_int size 0 || leb sz i || ltb sz (add32 i size))) [
    | inl out ↦ (λ e. ground arith, λ d. let (e, k, l, u) = d in ground arith)
    | inr ok ↦ (λ e. ground arith, λ d. let (e, k, l, u) = d in ground arith)
  ]
]

-- No byte of the `n` from `s` on is 0.
abbrev pub no_nul : Memory → ℕ → ℕ → Bool
no_nul m s zero = true
no_nul m s (suc n) = not (m s == 0) && no_nul m (suc s) n

find_nul_lem :
    (m : Memory) (s n l : ℕ)
    → find_nul m s n ≡ some l
    → (l < n) × (m (s + l) ≡ 0) × (no_nul m s l ≡ true)
unfolding find_nul
find_nul_lem m s zero l e = cc
find_nul_lem m s (suc n) l e = elim (Bool-cases (m s == 0)) [
  | inl z ↦ ground arith
  | inr nz ↦ elim (Option-cases (find_nul m (suc s) n)) [
    | inl q ↦ ground arith
    | inr (k, q) ↦ let ih = find_nul_lem m (suc s) n k q in ground arith
  ]
]

-- If `argstr` gives a pointer and a length, the pointer is the argument, the byte at that length
-- from it lies in the process's memory and is NUL, and no byte before it is.
pub argstr_lem :
    (m : Memory) (sz esp n p l : ℕ)
    → argstr m sz esp n ≡ some (p, l)
    → (argint m sz esp n ≡ some p) × (p + l < sz) × (m (p + l) ≡ 0) × (no_nul m p l ≡ true)
unfolding argstr fetchstr
argstr_lem m sz esp n p l e = elim (Option-cases (argint m sz esp n)) [
  | inl q ↦ ground arith
  | inr (i, q) ↦ elim (Bool-cases (leb sz i)) [
    | inl out ↦ ground arith
    | inr ok ↦ elim (Option-cases (find_nul m i (sz - i))) [
      | inl r ↦ ground arith
      | inr (k, r) ↦ let found = find_nul_lem m i (sz - i) k r in ground arith
    ]
  ]
]
