-- ===== src/Syscall.antt =====
-- syscall.c: how the kernel fetches the arguments of a system call from the calling process, whose
-- memory is the `sz` bytes from address 0 on, and calls the function for its number.
pub mod Bounds
mod Tests
use os_project2_test.Prelude.{
  ℕ, zero, suc, ◌+◌, ◌-◌, ◌*◌, ◌^◌, Bool, true, false, not, ◌&&◌, ◌||◌, Option, none, some, List,
  [], ◌∷◌, ◌==◌, ltb, leb, if◌then◌else◌, get_elem?, length, add32, lt_int, minus_one,
}

abbrev pub Memory : Type 0
Memory = ℕ → ℕ

-- The word at an address, lowest byte first.
abbrev pub read_word : Memory → ℕ → ℕ
read_word m a = m a + m (a + 1) * 2 ^ 8 + m (a + 2) * 2 ^ 16 + m (a + 3) * 2 ^ 24

-- `none` is -1.
unfoldable pub fetchint : Memory → ℕ → ℕ → Option ℕ
fetchint m sz addr = if leb sz addr || ltb sz (add32 addr 4) then none else some (read_word m addr)

-- The loop of `fetchstr`: the bytes from `s` on, of which `n` are left.
unfoldable pub find_nul : Memory → ℕ → ℕ → Option ℕ
find_nul m s zero = none
find_nul m s (suc n) =
    let rest = find_nul m (suc s) n in
    if m s == 0 then some 0 else elim rest [ none ↦ none | some l ↦ some (suc l) ]

-- The pointer and the length.
unfoldable pub fetchstr : Memory → ℕ → ℕ → Option (ℕ × ℕ)
fetchstr m sz addr =
    if leb sz addr
    then none
    else elim (find_nul m addr (sz - addr)) [ none ↦ none | some l ↦ some (addr, l) ]

pub argint : Memory → ℕ → ℕ → ℕ → Option ℕ
argint m sz esp n = fetchint m sz (add32 (add32 esp 4) (4 * n))

-- `size` is an `int`.
pub argptr : Memory → ℕ → ℕ → ℕ → ℕ → Option ℕ
argptr m sz esp n size = elim (argint m sz esp n) [
  | none ↦ none
  | some i ↦ if lt_int size 0 || leb sz i || ltb sz (add32 i size) then none else some i
]

pub argstr : Memory → ℕ → ℕ → ℕ → Option (ℕ × ℕ)
argstr m sz esp n = elim (argint m sz esp n) [ none ↦ none | some addr ↦ fetchstr m sz addr ]

-- The new `eax`, and the state after the call. The table has `none` where no function stands.
pub syscall : {S : Type 0} → List (Option (S → ℕ × S)) → ℕ → S → ℕ × S
syscall table num s =
    if lt_int 0 num && lt_int num (length table)
    then elim (get_elem? table num) [ some (some call) ↦ call s | _ ↦ (minus_one, s) ]
    else (minus_one, s)
