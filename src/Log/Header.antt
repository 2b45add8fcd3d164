-- ===== src/Log/Header.antt =====
-- The log header on disk: what is written is what is read.
use os_project2_test.Prelude.{
  ℕ, suc, ◌+◌, ◌<◌, ◌≤◌, ◌≡◌, refl, ap, ap₂, ◌∙◌, List, [], ◌∷◌, get_or, set, length, length-set,
  get_or-set_self, get_or-set_ne, arith,
}
use os_project2_test.Log.{Block, read_words, write_words, decode, encode}

write_words_before :
    (blk : Block) (i j : ℕ) (xs : List ℕ)
    → j < i
    → get_or (write_words blk i xs) j 0 ≡ get_or blk j 0
unfolding write_words
write_words_before blk i j [] h = refl
write_words_before blk i j (x ∷ xs) h =
    write_words_before (set blk i x) (suc i) j xs (omega arith)
    ∙ get_or-set_ne blk x 0 (omega arith)

read-write_words :
    (blk : Block) (i : ℕ) (xs : List ℕ)
    → i + length xs ≤ length blk
    → read_words (write_words blk i xs) i (length xs) ≡ xs
unfolding read_words write_words
read-write_words blk i [] h = refl
read-write_words blk i (x ∷ xs) h =
    ap₂ ◌∷◌
      (write_words_before (set blk i x) (suc i) i xs (omega arith)
        ∙ get_or-set_self blk i x 0 (omega arith))
      (read-write_words (set blk i x) (suc i) xs (omega (arith, length-set blk i x)))

pub length-write_words :
    (blk : Block) (i : ℕ) (xs : List ℕ) → length (write_words blk i xs) ≡ length blk
unfolding write_words
length-write_words blk i [] = refl
length-write_words blk i (x ∷ xs) = length-write_words (set blk i x) (suc i) xs ∙ length-set blk i x

-- Block numbers that fit in the header block are read back as they were written.
pub decode-encode :
    (blk : Block) (lh : List ℕ) → length lh < length blk → decode (encode blk lh) ≡ lh
decode-encode blk lh h =
    ap (read_words (encode blk lh) 1) (
      write_words_before (set blk 0 (length lh)) 1 0 lh (omega arith)
      ∙ get_or-set_self blk 0 (length lh) 0 (omega arith))
    ∙ read-write_words (set blk 0 (length lh)) 1 lh (omega (arith, length-set blk 0 (length lh)))

pub length-encode : (blk : Block) (lh : List ℕ) → length (encode blk lh) ≡ length blk
length-encode blk lh =
    length-write_words (set blk 0 (length lh)) 1 lh ∙ length-set blk 0 (length lh)
