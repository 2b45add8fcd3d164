-- ===== src/Text/Move.antt =====
-- memmove and memset: what they write, and that they write nothing else.
use os_project2_test.Prelude.{
  ℕ, zero, suc, ◌+◌, ◌-◌, ◌*◌, ◌/◌, ◌%◌, ◌^◌, ◌<◌, ◌≤◌, ◌≡◌, ◌∙◌, Bool, ◌&&◌, ◌==◌, ltb, leb,
  if◌then◌else◌, arith, ◌⊎◌, inl, inr, Bool-cases,
}
use os_project2_test.Text.{
  Memory, write, write_word, move_up, move_down, memmove, fill, fill_words, repeated, memset,
}

-- Address `b` lies in the `n` bytes from `d` on.
abbrev pub inside : ℕ → ℕ → ℕ → Bool
inside d n b = leb d b && ltb b (d + n)

move_down_lem :
    (m : Memory) (d s n b : ℕ)
    → s ≤ d
    → move_down m d s n b ≡ (if inside d n b then m (s + (b - d)) else m b)
unfolding move_down
move_down_lem m d s zero b h = ground arith
move_down_lem m d s (suc n) b h =
    move_down_lem (write m (d + n) (m (s + n))) d s n b h ∙ ground arith

move_up_lem :
    (m : Memory) (d s n b : ℕ)
    → (d ≤ s) ⊎ (s + n ≤ d)
    → move_up m d s n b ≡ (if inside d n b then m (s + (b - d)) else m b)
unfolding move_up
move_up_lem m d s zero b h = ground arith
move_up_lem m d s (suc n) b h =
    move_up_lem (write m d (m s)) (suc d) (suc s) n b (omega arith) ∙ ground arith

-- After `memmove` a byte of the target is the byte of the source as it was before, also if
-- source and target overlap, and every other byte is as it was.
pub memmove_lem :
    (m : Memory) (dst src n b : ℕ)
    → memmove m dst src n b ≡ (if inside dst n b then m (src + (b - dst)) else m b)
unfolding memmove
memmove_lem m dst src n b = elim (Bool-cases (ltb src dst && ltb dst (src + n))) [
  | inl e ↦ rw e (move_down_lem m dst src n b (ground arith))
  | inr e ↦ rw e (move_up_lem m dst src n b (ground arith))
]

pub fill_lem :
    (m : Memory) (dst c n b : ℕ) → fill m dst c n b ≡ (if inside dst n b then c % 2 ^ 8 else m b)
unfolding fill
fill_lem m dst c zero b = ground arith
fill_lem m dst c (suc n) b = fill_lem (write m dst (c % 2 ^ 8)) (suc dst) c n b ∙ ground arith

fill_words_lem :
    (m : Memory) (dst c n b : ℕ)
    → c < 2 ^ 8
    → fill_words m dst (repeated c) n b ≡ (if inside dst (4 * n) b then c else m b)
unfolding fill_words
fill_words_lem m dst c zero b h = ground arith
fill_words_lem m dst c (suc n) b h =
    fill_words_lem (write_word m dst (repeated c)) (dst + 4) c n b h ∙ ground arith

-- `memset`, by words or by bytes, sets each byte of the target to the low byte of its argument
-- and leaves every other byte as it was.
pub memset_lem :
    (m : Memory) (dst c n b : ℕ) → memset m dst c n b ≡ (if inside dst n b then c % 2 ^ 8 else m b)
unfolding memset
memset_lem m dst c n b = elim (Bool-cases (dst % 4 == 0 && n % 4 == 0)) [
  | inl e ↦ rw e (fill_words_lem m dst (c % 2 ^ 8) (n / 4) b (omega arith) ∙ ground arith)
  | inr e ↦ rw e (fill_lem m dst c n b)
]
