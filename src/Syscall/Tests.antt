-- ===== src/Syscall/Tests.antt =====
-- A process of 64 bytes with its stack pointer at 16: the first argument is 32, where "hi" stands.
use os_project2_test.Prelude.{◌+◌, ◌≡◌, ◌≤◌, ◌<◌, ◌^◌, ◌↔◌, refl, some, ◌==◌, if◌then◌else◌, arith}
use os_project2_test.Syscall.{Memory, fetchint, fetchstr, find_nul, argint, argptr, argstr}
use os_project2_test.Syscall.Bounds.{argptr_iff}

abbrev memory : Memory
memory a = if a == 20 then 32 else if a == 32 then b'h' else if a == 33 then b'i' else 0

string_at : argstr memory 64 16 0 ≡ some (32, 2)
unfolding argstr argint fetchint fetchstr find_nul
string_at = refl

argptr_iff_example :
    (argptr memory 64 16 0 32 ≡ some 32)
    ↔ ((argint memory 64 16 0 ≡ some 32) × (32 < 2 ^ 31) × (32 < 64) × (32 + 32 ≤ 64))
argptr_iff_example = argptr_iff memory 64 16 0 32 32 (omega arith) (omega arith)
