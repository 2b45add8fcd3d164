-- ===== src/Fs/Bitmap/Laws.antt =====
-- balloc gives a block that was free and takes it; bfree gives it back; other blocks keep their bit.
use os_project2_test.Prelude.{
  ℕ, zero, suc, ◌+◌, ◌*◌, ◌/◌, ◌%◌, ◌-◌, ◌≡◌, ◌≤◌, ◌<◌, refl, ap, sym, ◌∙◌, Bool, true, false, not,
  ◌&&◌, ◌||◌, none, some, ◌∷◌, ◌==◌, ltb, leb, arith, Bool-cases, Option-cases, inl, inr,
}
use os_project2_test.Fs.{Blocks, Superblock, Fs, put_byte, zeroed, bzero}
use os_project2_test.Fs.Bitmap.{
  is_set, or_bit, clear_bit, map_block, map_byte, map_bit, mark, find_free, balloc_from, balloc,
  bfree,
}

pub is_set-or_bit : (byte k j : ℕ) → is_set (or_bit byte k) j ≡ (k == j || is_set byte j)
unfolding is_set or_bit
is_set-or_bit byte zero zero = ground arith
is_set-or_bit byte zero (suc j) = elim (Bool-cases (byte % 2 == 1)) [
  | inl odd ↦ rw odd (ground arith)
  | inr even ↦ let same : (byte + 1) / 2 ≡ byte / 2 = ground arith in rw (even, same) (ground arith)
]
is_set-or_bit byte (suc k) zero = ground arith
is_set-or_bit byte (suc k) (suc j) =
    let same : (byte % 2 + 2 * or_bit (byte / 2) k) / 2 ≡ or_bit (byte / 2) k = omega arith in
    rw same (is_set-or_bit (byte / 2) k j ∙ ground arith)

pub is_set-clear_bit :
    (byte k j : ℕ) → is_set (clear_bit byte k) j ≡ (not (k == j) && is_set byte j)
unfolding is_set clear_bit
is_set-clear_bit byte zero zero = ground arith
is_set-clear_bit byte zero (suc j) = elim (Bool-cases (byte % 2 == 1)) [
  | inl odd ↦ let same : (byte - 1) / 2 ≡ byte / 2 = ground arith in rw (odd, same) (ground arith)
  | inr even ↦ rw even (ground arith)
]
is_set-clear_bit byte (suc k) zero = ground arith
is_set-clear_bit byte (suc k) (suc j) =
    let same : (byte % 2 + 2 * clear_bit (byte / 2) k) / 2 ≡ clear_bit (byte / 2) k = omega arith in
    rw same (is_set-clear_bit (byte / 2) k j ∙ ground arith)

module _ (sb : Superblock) where
  -- The block's bit in the free map is set.
  abbrev pub marked : Blocks → ℕ → Bool
  marked c b = is_set (c (map_block sb b) (map_byte b)) (map_bit b)

  -- The blocks before the data: boot block, superblock, log, inodes and, last, the free map.
  abbrev pub is_meta : ℕ → Bool
  is_meta b = leb b (sb.size / 4096 + sb.bmapstart)

  marked-or_bit :
      (c : Blocks) (b a : ℕ)
      → marked
          (put_byte c
            (map_block sb b)
            (map_byte b)
            (or_bit (c (map_block sb b) (map_byte b)) (map_bit b)))
          a
        ≡ (b == a || marked c a)
  marked-or_bit c b a =
      elim (Bool-cases (map_block sb b == map_block sb a && map_byte b == map_byte a)) [
        | inl same ↦
            let block : map_block sb b ≡ map_block sb a = ground arith in
            let byte : map_byte b ≡ map_byte a = ground arith in
            let bit : (map_bit b == map_bit a) ≡ (b == a) = ground arith in
            rw same (
              is_set-or_bit (c (map_block sb b) (map_byte b)) (map_bit b) (map_bit a)
              ∙ rw (bit, block, byte) refl)
        | inr other ↦ let apart : (b == a) ≡ false = ground arith in rw (other, apart) refl
      ]

  pub marked-clear_bit :
      (c : Blocks) (b a : ℕ)
      → marked
          (put_byte c
            (map_block sb b)
            (map_byte b)
            (clear_bit (c (map_block sb b) (map_byte b)) (map_bit b)))
          a
        ≡ (not (b == a) && marked c a)
  marked-clear_bit c b a =
      elim (Bool-cases (map_block sb b == map_block sb a && map_byte b == map_byte a)) [
        | inl same ↦
            let block : map_block sb b ≡ map_block sb a = ground arith in
            let byte : map_byte b ≡ map_byte a = ground arith in
            let bit : (map_bit b == map_bit a) ≡ (b == a) = ground arith in
            rw same (
              is_set-clear_bit (c (map_block sb b) (map_byte b)) (map_bit b) (map_bit a)
              ∙ rw (bit, block, byte) refl)
        | inr other ↦ let apart : (b == a) ≡ false = ground arith in rw (other, apart) refl
      ]

  marked-zeroed :
      (c : Blocks) (b a : ℕ) → a < sb.size → is_meta b ≡ false → marked (zeroed c b) a ≡ marked c a
  marked-zeroed c b a h o =
      let apart : (b == map_block sb a) ≡ false = ground arith in rw apart refl

  -- The blocks before the data are marked.
  abbrev pub IsLaid : Blocks → Type 0
  IsLaid c = (b : ℕ) → is_meta b ≡ true → marked c b ≡ true

  find_free-some :
      (c : Blocks) (b n bi i : ℕ)
      → b % 4096 ≡ 0
      → bi + n ≤ 4096
      → find_free sb c b n bi ≡ some i
      → (b + i < sb.size) × (marked c (b + i) ≡ false)
  unfolding find_free
  find_free-some c b zero bi i d l e = cc
  find_free-some c b (suc n) bi i d l e =
      elim (Bool-cases (is_set (c (map_block sb b) (bi / 8)) (bi % 8))) [
        | inl set ↦ find_free-some c b n (suc bi) i d (omega arith) (ground arith)
        | inr free ↦
            let here : bi ≡ i = ground arith in
            let block : map_block sb (b + bi) ≡ map_block sb b = omega arith in
            let byte : map_byte (b + bi) ≡ bi / 8 = omega arith in
            let bit : map_bit (b + bi) ≡ bi % 8 = omega arith in
            (ground arith, rw (← here, block, byte, bit) free)
      ]

  -- What `balloc` gives: a block of the file system that was free, which it takes and clears.
  pub record Taken (fs : Fs) (x : ℕ) (fs' : Fs) : Type 0 where
    pub in_range : x < sb.size
    pub was_free : marked fs.cache x ≡ false
    pub result : fs' ≡ bzero (mark sb fs x) x

  balloc_from-Taken :
      (fs fs' : Fs) (fuel b x : ℕ)
      → b % 4096 ≡ 0
      → balloc_from sb fs fuel b ≡ some (x, fs')
      → Taken fs x fs'
  unfolding balloc_from
  balloc_from-Taken fs fs' zero b x d e = cc
  balloc_from-Taken fs fs' (suc fuel) b x d e =
      elim (Option-cases (find_free sb fs.cache b 4096 0)) [
        | inl none_here ↦ balloc_from-Taken fs fs' fuel (b + 4096) x (omega arith) (ground arith)
        | inr (i, found) ↦
            let (l, free) = find_free-some fs.cache b 4096 0 i d (omega arith) found in
            let at : b + i ≡ x = ground arith in
            let after : bzero (mark sb fs (b + i)) (b + i) ≡ fs' = ground arith in
            record {
              in_range = omega arith;
              was_free = rw (← at) free;
              result = sym after ∙ ap (λ y. bzero (mark sb fs y) y) at;
            }
      ]

  find_free-none :
      (c : Blocks) (b n bi i : ℕ)
      → b % 4096 ≡ 0
      → bi + n ≤ 4096
      → find_free sb c b n bi ≡ none
      → bi ≤ i
      → i < bi + n
      → b + i < sb.size
      → marked c (b + i) ≡ true
  unfolding find_free
  find_free-none c b zero bi i d l e lo hi r = absurd (omega arith)
  find_free-none c b (suc n) bi i d l e lo hi r =
      elim (Bool-cases (is_set (c (map_block sb b) (bi / 8)) (bi % 8))) [
        | inl set ↦ elim (Bool-cases (bi == i)) [
          | inl here ↦
              let same : bi ≡ i = ground arith in
              let block : map_block sb (b + i) ≡ map_block sb b = omega arith in
              let byte : map_byte (b + i) ≡ bi / 8 = omega arith in
              let bit : map_bit (b + i) ≡ bi % 8 = omega arith in rw (block, byte, bit) set
          | inr there ↦
              find_free-none c b n (suc bi) i d (omega arith) (ground arith) (ground arith)
                (omega arith) r
        ]
        | inr free ↦ ground arith
      ]

  balloc_from-none :
      (fs : Fs) (fuel b a : ℕ)
      → b % 4096 ≡ 0
      → sb.size < b + 4096 * fuel
      → balloc_from sb fs fuel b ≡ none
      → b ≤ a
      → a < sb.size
      → marked fs.cache a ≡ true
  unfolding balloc_from
  balloc_from-none fs zero b a d enough e lo hi = absurd (omega arith)
  balloc_from-none fs (suc fuel) b a d enough e lo hi =
      elim (Option-cases (find_free sb fs.cache b 4096 0)) [
        | inr (i, found) ↦ ground arith
        | inl none_here ↦ elim (Bool-cases (ltb a (b + 4096))) [
          | inl near ↦
              let at : b + (a - b) ≡ a = omega arith in
              rw at at (
                find_free-none fs.cache b 4096 0 (a - b) d (omega arith) none_here (omega arith)
                  (ground arith) (omega arith))
          | inr far ↦
              balloc_from-none fs fuel (b + 4096) a (omega arith) (omega arith) (ground arith)
                (ground arith) hi
        ]
      ]

  -- The block taken is among the data.
  pub Taken-out : (fs fs' : Fs) (x : ℕ) → Taken fs x fs' → IsLaid fs.cache → is_meta x ≡ false
  Taken-out fs fs' x t laid = elim (Bool-cases (is_meta x)) [
    | inl i ↦ absurd (ground (arith, laid x i, t.was_free))
    | inr o ↦ o
  ]

  pub Taken-marked :
      (fs fs' : Fs) (x a : ℕ)
      → Taken fs x fs'
      → IsLaid fs.cache
      → a < sb.size
      → marked fs'.cache a ≡ (x == a || marked fs.cache a)
  unfolding bzero
  Taken-marked fs fs' x a t laid h =
      let out = Taken-out fs fs' x t laid in
      ap (λ (f : Fs). marked f.cache a) t.result
      ∙ marked-zeroed (mark sb fs x).cache x a h out
      ∙ marked-or_bit fs.cache x a

  -- Data blocks other than the one taken keep their bytes.
  pub Taken-other :
      (fs fs' : Fs) (x b i : ℕ)
      → Taken fs x fs'
      → (x == b) ≡ false
      → is_meta b ≡ false
      → fs'.cache b i ≡ fs.cache b i
  unfolding bzero
  Taken-other fs fs' x b i t d o =
      let range = t.in_range in ap (λ (f : Fs). f.cache b i) t.result ∙ ground arith

  -- The block taken is cleared.
  pub Taken-zero : (fs fs' : Fs) (x i : ℕ) → Taken fs x fs' → i < 512 → fs'.cache x i ≡ 0
  unfolding bzero
  Taken-zero fs fs' x i t h = ap (λ (f : Fs). f.cache x i) t.result ∙ ground arith

  pub balloc-Taken : (fs fs' : Fs) (x : ℕ) → balloc sb fs ≡ some (x, fs') → Taken fs x fs'
  unfolding balloc
  balloc-Taken fs fs' x e = balloc_from-Taken fs fs' (sb.size / 4096 + 1) 0 x (omega arith) e

  -- A write among the data does not change which blocks are marked.
  pub marked-other :
      (c c' : Blocks) (b : ℕ)
      → b < sb.size
      → ((a i : ℕ) → is_meta a ≡ true → c' a i ≡ c a i)
      → marked c' b ≡ marked c b
  marked-other c c' b h same =
      ap (λ byte. is_set byte (map_bit b)) (same (map_block sb b) (map_byte b) (ground arith))

  -- With the blocks before the data marked and some block free, `balloc` does not panic and gives
  -- a block that was free; it is marked afterwards, every other block is marked as before, and the
  -- free map's block and the new one are logged.
  pub balloc_lem :
      (fs : Fs) (free a : ℕ)
      → IsLaid fs.cache
      → free < sb.size
      → marked fs.cache free ≡ false
      → a < sb.size
      → (x : ℕ) × (fs' : Fs) × (balloc sb fs ≡ some (x, fs'))
        × (x < sb.size)
        × (marked fs.cache x ≡ false)
        × (marked fs'.cache a ≡ (x == a || marked fs.cache a))
        × (fs'.logged ≡ x ∷ map_block sb x ∷ fs.logged)
  unfolding balloc bzero
  balloc_lem fs free a laid h unused r =
      elim (Option-cases (balloc_from sb fs (sb.size / 4096 + 1) 0)) [
        | inl e ↦ absurd (
            ground (
              arith,
              balloc_from-none fs (sb.size / 4096 + 1) 0 free (omega arith) (omega arith) e
                  (omega arith) h,
            ))
        | inr ((x, fs'), e) ↦
            let t = balloc_from-Taken fs fs' (sb.size / 4096 + 1) 0 x (omega arith) e in
            (
              x,
              fs',
              e,
              t.in_range,
              t.was_free,
              Taken-marked fs fs' x a t laid r,
              ap (λ (f : Fs). f.logged) t.result,
            )
      ]

  -- `bfree` panics on a free block, and otherwise clears its bit and no other.
  pub bfree_lem :
      (fs : Fs) (b a : ℕ)
      → marked fs.cache b ≡ true
      → (fs' : Fs) × (bfree sb fs b ≡ some fs')
        × (marked fs'.cache a ≡ (not (b == a) && marked fs.cache a))
        × (fs'.logged ≡ map_block sb b ∷ fs.logged)
  unfolding bfree
  bfree_lem fs b a set = rw set (_, refl, marked-clear_bit fs.cache b a, refl)
