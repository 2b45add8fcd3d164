-- ===== src/Prelude/Words.antt =====
-- 32-bit words. An `int` is kept as its bit pattern, a number below 2^32, like a `uint`; signed
-- comparisons go through the pattern shifted by 2^31, which orders patterns as the integers they
-- stand for.
use Prim.Native.Nat.{ℕ, ◌+◌, ◌-◌, ◌%◌, ◌^◌, ◌<◌, ◌≤◌}
use mathlib.Core.Path.{◌≡◌}
use mathlib.Core.Logic.{◌↔◌}
use mathlib.Core.Bool.{Bool, true}
use native.Mathlib.Omega.{arith}
use os_project2_test.Prelude.Tests.{ltb, leb}

abbrev pub word : ℕ
word = 2 ^ 32

abbrev pub add32 : ℕ → ℕ → ℕ
add32 a b = (a + b) % 2 ^ 32

abbrev pub sub32 : ℕ → ℕ → ℕ
sub32 a b = (a + 2 ^ 32 - b) % 2 ^ 32

-- The bit pattern of -1.
abbrev pub minus_one : ℕ
minus_one = 2 ^ 32 - 1

-- `a < b` and `a <= b` on `int`.
abbrev pub lt_int : ℕ → ℕ → Bool
lt_int a b = ltb (add32 a (2 ^ 31)) (add32 b (2 ^ 31))

abbrev pub le_int : ℕ → ℕ → Bool
le_int a b = leb (add32 a (2 ^ 31)) (add32 b (2 ^ 31))

-- On patterns below 2^31, the integers that are not negative, the signed order is that of ℕ.
pub lt_int_small : (a b : ℕ) → a < 2 ^ 31 → b < 2 ^ 31 → (lt_int a b ≡ true) ↔ (a < b)
lt_int_small a b ha hb = ground arith

pub le_int_small : (a b : ℕ) → a < 2 ^ 31 → b < 2 ^ 31 → (le_int a b ≡ true) ↔ (a ≤ b)
le_int_small a b ha hb = ground arith
