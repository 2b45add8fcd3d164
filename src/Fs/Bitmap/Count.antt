-- ===== src/Fs/Bitmap/Count.antt =====
-- How many blocks are free, and which bytes bfree leaves alone.
use os_project2_test.Prelude.{
  ℕ, zero, suc, ◌+◌, ◌≡◌, ◌<◌, refl, ap, ◌∙◌, true, false, not, ◌&&◌, ◌||◌, some, ◌==◌, ltb,
  if◌then◌else◌, arith, Bool-cases, inl, inr,
}
use os_project2_test.Fs.{Blocks, Superblock, Fs}
use os_project2_test.Fs.Bitmap.{map_block, bfree}
use os_project2_test.Fs.Bitmap.Laws.{marked, marked-clear_bit}

module _ (sb : Superblock) where
  -- The number of free blocks below `n`.
  abbrev pub free_count : Blocks → ℕ → ℕ
  free_count c zero = 0
  free_count c (suc n) = (if marked sb c n then 0 else 1) + free_count c n

  pub free_count-pos :
      (c : Blocks) (n : ℕ) → 0 < free_count c n → (a : ℕ) × (a < n) × (marked sb c a ≡ false)
  free_count-pos c zero h = absurd (omega arith)
  free_count-pos c (suc n) h = elim (Bool-cases (marked sb c n)) [
    | inl m ↦ let (a, r, f) = free_count-pos c n (ground arith) in (a, omega arith, f)
    | inr f ↦ (n, omega arith, f)
  ]

  pub free_count-mark :
      (c c' : Blocks) (x n : ℕ)
      → marked sb c x ≡ false
      → ((a : ℕ) → a < n → marked sb c' a ≡ (x == a || marked sb c a))
      → free_count c n ≡ (if ltb x n then 1 else 0) + free_count c' n
  free_count-mark c c' x zero f h = ground arith
  free_count-mark c c' x (suc n) f h =
      let rest = free_count-mark c c' x n f (λ a r. h a (omega arith)) in
      let m = h n (omega arith) in
      elim (Bool-cases (x == n)) [
        | inl here ↦
            let at : n ≡ x = ground arith in
            let g : marked sb c n ≡ false = ap (marked sb c) at ∙ f in ground arith
        | inr other ↦ ground arith
      ]

  -- `bfree` of a block that is taken.
  pub record Freed (c c' : Blocks) (b : ℕ) : Type 0 where
    pub marks : (a : ℕ) → marked sb c' a ≡ (not (b == a) && marked sb c a)
    pub same : (a i : ℕ) → (map_block sb b == a) ≡ false → c' a i ≡ c a i

  pub bfree-Freed :
      (fs : Fs) (b : ℕ)
      → marked sb fs.cache b ≡ true
      → (fs' : Fs) × (bfree sb fs b ≡ some fs') × Freed fs.cache fs'.cache b
  unfolding bfree
  bfree-Freed fs b set =
      rw set (_, refl, record { marks = marked-clear_bit sb fs.cache b; same = λ a i h. rw h refl })
