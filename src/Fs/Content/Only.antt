-- ===== src/Fs/Content/Only.antt =====
-- A change to a single block keeps an inode's blocks; so does storing bytes at one of them.
use os_project2_test.Prelude.{
  ℕ, zero, suc, ◌+◌, ◌/◌, ◌-◌, ◌≡◌, ◌≤◌, ◌<◌, refl, ap, ◌∙◌, true, false, not, ◌&&◌, ◌||◌, ◌==◌,
  ltb, leb, if◌then◌else◌, arith, Bool-cases, inl, inr,
}
use os_project2_test.Fs.{Blocks, Superblock, Inode}
use os_project2_test.Fs.Bitmap.{map_block, map_byte, map_bit, is_set}
use os_project2_test.Fs.Bitmap.Laws.{marked}
use os_project2_test.Fs.Bitmap.Count.{free_count}
use os_project2_test.Fs.Map.Owned.{indirect, block_of, byte_of, is_owned, IsOwned, get_word-same}
use os_project2_test.Fs.Content.{Mem, to_block}

module _ (sb : Superblock) where
  -- Block `x` alone changes; it holds neither free map nor an indirect block.
  pub record Only (c c' : Blocks) (ip : Inode) (x : ℕ) : Type 0 where
    pub same : (a i : ℕ) → (x == a) ≡ false → c' a i ≡ c a i
    pub apart : (indirect ip == 0 || not (indirect ip == x)) ≡ true
    pub off_map : (leb sb.bmapstart x && leb x (sb.size / 4096 + sb.bmapstart)) ≡ false

  pub Only-marked :
      (c c' : Blocks) (ip : Inode) (x b : ℕ)
      → Only c c' ip x
      → b < sb.size
      → marked sb c' b ≡ marked sb c b
  Only-marked c c' ip x b o h =
      ap (λ byte. is_set byte (map_bit b))
        (o.same (map_block sb b) (map_byte b) (let m = o.off_map in ground arith))

  pub Only-block_of :
      (c c' : Blocks) (ip : Inode) (x b : ℕ) → Only c c' ip x → block_of c' ip b ≡ block_of c ip b
  Only-block_of c c' ip x b o = elim (Bool-cases (ltb b 12)) [
    | inl low ↦ rw low refl
    | inr high ↦ elim (Bool-cases (indirect ip == 0)) [
      | inl z ↦ rw (high, z) refl
      | inr nz ↦
          let a = o.apart in
          rw (high, nz)
            (get_word-same sb c c' (indirect ip) (b - 12)
              (λ i. o.same (indirect ip) i (ground arith)))
    ]
  ]

  pub Only-free :
      (c c' : Blocks) (ip : Inode) (x n : ℕ)
      → Only c c' ip x
      → n ≤ sb.size
      → free_count sb c' n ≡ free_count sb c n
  Only-free c c' ip x zero o h = refl
  Only-free c c' ip x (suc n) o h =
      let rest = Only-free c c' ip x n o (omega arith) in
      let m = Only-marked c c' ip x n o (omega arith) in ground arith

  pub Only-is_owned :
      (c c' : Blocks) (ip : Inode) (x y : ℕ)
      → Only c c' ip x
      → is_owned sb c y ≡ true
      → is_owned sb c' y ≡ true
  Only-is_owned c c' ip x y o h = elim (Bool-cases (ltb y sb.size)) [
    | inl r ↦ let m = Only-marked c c' ip x y o (ground arith) in ground arith
    | inr r ↦ ground arith
  ]

  pub Only-IsOwned :
      (c c' : Blocks) (ip : Inode) (x : ℕ) → Only c c' ip x → IsOwned sb c ip → IsOwned sb c' ip
  Only-IsOwned c c' ip x o v = record {
    laid = λ b h. let f = v.fits in Only-marked c c' ip x b o (ground arith) ∙ v.laid b h;
    fits = v.fits;
    boot = Only-marked c c' ip x 0 o (let f = v.fits in omega arith) ∙ v.boot;
    small = v.small;
    slots = v.slots;
    top = Only-is_owned c c' ip x (indirect ip) o v.top;
    each = λ b h.
        rw (Only-block_of c c' ip x b o) (Only-is_owned c c' ip x (block_of c ip b) o (v.each b h));
    below = λ b h. rw (Only-block_of c c' ip x b o) (v.below b h);
    differ =
        λ a b h k. rw (Only-block_of c c' ip x a o, Only-block_of c c' ip x b o) (v.differ a b h k);
  }

  -- The bytes stored at one of the inode's own blocks.
  module _ (c : Blocks) (ip : Inode) (bn i src m : ℕ) (mem : Mem) (v : IsOwned sb c ip)
      (range : bn < 140) (there : (block_of c ip bn == 0) ≡ false) where
    abbrev pub stored : Blocks
    stored = to_block c (block_of c ip bn) i mem src m

    pub stored-Only : Only c stored ip (block_of c ip bn)
    stored-Only = record {
      same = λ a j h. rw h refl;
      apart = let b = v.below bn range in let t = v.top in ground arith;
      off_map = let e = v.each bn range in ground arith;
    }

    pub byte_of-stored :
        (b j : ℕ)
        → b < 140
        → byte_of stored ip b j
          ≡ (if b == bn && leb i j && ltb j (i + m) then mem (src + (j - i)) else byte_of c ip b j)
    byte_of-stored b j h = elim (Bool-cases (b == bn)) [
      | inl here ↦
          let at : b ≡ bn = ground arith in
          let e : block_of c ip b ≡ block_of c ip bn = ap (block_of c ip) at in
          rw (Only-block_of c stored ip (block_of c ip bn) b stored-Only, e, there) (ground arith)
      | inr other ↦ elim (Bool-cases (block_of c ip b == 0)) [
        | inl z ↦ rw (Only-block_of c stored ip (block_of c ip bn) b stored-Only, z, other) refl
        | inr nz ↦
            let d = v.differ b bn h range in
            let apart : (block_of c ip bn == block_of c ip b) ≡ false = ground arith in
            rw (Only-block_of c stored ip (block_of c ip bn) b stored-Only, nz, other, apart) refl
      ]
    ]
