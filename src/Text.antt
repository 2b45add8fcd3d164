-- ===== src/Text.antt =====
-- string.c, over a flat memory. A pointer is an address, an address holds a byte, and no object of
-- the program reaches the end of the address space, so that addresses do not wrap.
pub mod Move
pub mod Strings
pub mod Copy
mod Tests
use os_project2_test.Prelude.{
  ℕ, zero, suc, ◌+◌, ◌-◌, ◌*◌, ◌/◌, ◌%◌, ◌^◌, Bool, true, false, not, ◌&&◌, ◌||◌, ◌==◌, ltb,
  if◌then◌else◌, sub32, Option, none, some,
}

abbrev pub Memory : Type 0
Memory = ℕ → ℕ

abbrev pub write : Memory → ℕ → ℕ → Memory
write m a v b = if a == b then v else m b

-- `while(n-- > 0) *d++ = *s++;`
pub move_up : Memory → ℕ → ℕ → ℕ → Memory
move_up m d s zero = m
move_up m d s (suc n) = move_up (write m d (m s)) (suc d) (suc s) n

-- `while(n-- > 0) *--d = *--s;`, with `d` and `s` the ends of what is left to move.
pub move_down : Memory → ℕ → ℕ → ℕ → Memory
move_down m d s zero = m
move_down m d s (suc n) = move_down (write m (d + n) (m (s + n))) d s n

pub memmove : Memory → ℕ → ℕ → ℕ → Memory
memmove m dst src n =
    if ltb src dst && ltb dst (src + n) then move_down m dst src n else move_up m dst src n

pub memcpy : Memory → ℕ → ℕ → ℕ → Memory
memcpy = memmove

-- `stosb`: the low byte of `c`, `n` times.
pub fill : Memory → ℕ → ℕ → ℕ → Memory
fill m dst c zero = m
fill m dst c (suc n) = fill (write m dst (c % 2 ^ 8)) (suc dst) c n

-- The four bytes of `w`, lowest first.
abbrev pub write_word : Memory → ℕ → ℕ → Memory
write_word m a w =
    write
      (write (write (write m a (w % 2 ^ 8)) (a + 1) (w / 2 ^ 8 % 2 ^ 8)) (a + 2)
        (w / 2 ^ 16 % 2 ^ 8))
      (a + 3) (w / 2 ^ 24 % 2 ^ 8)

-- `stosl`: the word `w`, `n` times.
pub fill_words : Memory → ℕ → ℕ → ℕ → Memory
fill_words m dst w zero = m
fill_words m dst w (suc n) = fill_words (write_word m dst w) (dst + 4) w n

-- The four fields of the word do not overlap, so their `|` is a sum.
abbrev pub repeated : ℕ → ℕ
repeated c = c * 2 ^ 24 + c * 2 ^ 16 + c * 2 ^ 8 + c

pub memset : Memory → ℕ → ℕ → ℕ → Memory
memset m dst c n =
    if dst % 4 == 0 && n % 4 == 0
    then fill_words m dst (repeated (c % 2 ^ 8)) (n / 4)
    else fill m dst c n

-- The difference of two bytes, as an `int`.
abbrev pub byte_diff : ℕ → ℕ → ℕ
byte_diff a b = sub32 a b

pub memcmp : Memory → ℕ → ℕ → ℕ → ℕ
memcmp m p q zero = 0
memcmp m p q (suc n) =
    let rest = memcmp m (suc p) (suc q) n in
    if not (m p == m q) then byte_diff (m p) (m q) else rest

pub strncmp : Memory → ℕ → ℕ → ℕ → ℕ
strncmp m p q zero = 0
strncmp m p q (suc n) =
    let rest = strncmp m (suc p) (suc q) n in
    if not (m p == 0) && m p == m q then rest else byte_diff (m p) (m q)

-- `n` is the count, 0 if the `int` is negative.
pub strncpy : Memory → ℕ → ℕ → ℕ → Memory
strncpy m s t zero = m
strncpy m s t (suc n) =
    let rest = strncpy (write m s (m t)) (suc s) (suc t) n in
    if m t == 0 then fill (write m s (m t)) (suc s) 0 n else rest

-- `while(--n > 0 && (*s++ = *t++) != 0) ; *s = 0;`, with the rounds left.
pub copy_string : Memory → ℕ → ℕ → ℕ → Memory
copy_string m s t zero = write m s 0
copy_string m s t (suc n) =
    let rest = copy_string (write m s (m t)) (suc s) (suc t) n in
    if m t == 0 then write (write m s (m t)) (suc s) 0 else rest

pub safestrcpy : Memory → ℕ → ℕ → ℕ → Memory
safestrcpy m s t zero = m
safestrcpy m s t (suc n) = copy_string m s t n

-- `none` means that the fuel ran out before a NUL.
pub strlen_from : ℕ → Memory → ℕ → ℕ → Option ℕ
strlen_from zero m s n = none
strlen_from (suc fuel) m s n =
    let rest = strlen_from fuel m s (n + 1) in if m (s + n) == 0 then some n else rest

abbrev pub strlen : ℕ → Memory → ℕ → Option ℕ
strlen fuel m s = strlen_from fuel m s 0
