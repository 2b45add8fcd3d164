-- ===== src/Fs/Map/Laws.antt =====
-- bmap finds or adds the block of an inode, and leaves all other blocks and their bytes alone.
use os_project2_test.Prelude.{
  ℕ, ◌+◌, ◌*◌, ◌-◌, ◌≡◌, ◌<◌, refl, ap, sym, ◌∙◌, subst, true, false, not, ◌||◌, some, ◌==◌, ltb,
  if◌then◌else◌, arith, Bool-cases, inl, inr, get_or, set, length, length-set, get_or-set_self,
  get_or-set_ne,
}
use os_project2_test.Fs.{Blocks, Superblock, Inode, Fs, get_word, put_word}
use os_project2_test.Fs.Bitmap.{balloc}
use os_project2_test.Fs.Bitmap.Laws.{Taken, Taken-zero, balloc-Taken, marked-other}
use os_project2_test.Fs.Map.Owned.{
  indirect, block_of, byte_of, is_owned, IsOwned, fresh, Grown, Grown-is_owned, Grown-new,
  Grown-IsLaid, Grown-free, Taken-Grown, get_word-same, Grown-block_of, Added, Same, get_or-set,
  get_word-put_word,
}

module _ (sb : Superblock) where
  module _ (c c' : Blocks) (ip ip' : Inode) (bn x ind : ℕ) (v : IsOwned sb c ip)
      (g : Grown sb c c' x ind) (slots : length ip'.addrs ≡ 13) (top : indirect ip' ≡ indirect ip)
      (other : (ind == 0 || ind == indirect ip) ≡ true)
      (blocks : (b : ℕ) → b < 140 → block_of c' ip' b ≡ (if b == bn then x else block_of c ip b))
      (absent : block_of c ip bn ≡ 0) where
    not_top : (indirect ip == x) ≡ false
    not_top = let f = fresh sb c x (indirect ip) g.unused v.top in let n = g.nonzero in ground arith

    not_ind : (ind == x) ≡ false
    not_ind = let n = g.nonzero in let t = not_top in ground arith

    added-below :
        (b : ℕ)
        → b < 140
        → (block_of c' ip' b == 0 || not (block_of c' ip' b == indirect ip')) ≡ true
    added-below b h =
        let e = blocks b h in let t = not_top in let o = v.below b h in rw (e, top) (ground arith)

    added-differ :
        (a b : ℕ)
        → a < 140
        → b < 140
        → (block_of c' ip' a == 0 || a == b || not (block_of c' ip' a == block_of c' ip' b)) ≡ true
    added-differ a b h k =
        let fa = fresh sb c x (block_of c ip a) g.unused (v.each a h) in
        let fb = fresh sb c x (block_of c ip b) g.unused (v.each b k) in
        let d = v.differ a b h k in let n = g.nonzero in rw (blocks a h, blocks b k) (ground arith)

    added-bytes : (b i : ℕ) → b < 140 → i < 512 → byte_of c' ip' b i ≡ byte_of c ip b i
    added-bytes b i h k = elim (Bool-cases (b == bn)) [
      | inl here ↦
          let at : b ≡ bn = ground arith in
          let e : block_of c' ip' b ≡ x = blocks b h ∙ rw here refl in
          let z : block_of c ip b ≡ 0 = ap (block_of c ip) at ∙ absent in
          let clear = g.clear i k not_ind in rw (e, z) (ground arith)
      | inr there ↦
          let e : block_of c' ip' b ≡ block_of c ip b = blocks b h ∙ rw there refl in
          elim (Bool-cases (block_of c ip b == 0)) [
            | inl z ↦ rw (e, z) refl
            | inr nz ↦
                let f = fresh sb c x (block_of c ip b) g.unused (v.each b h) in
                let o = v.each b h in
                let w = v.below b h in
                let same =
                  g.same (block_of c ip b) i (ground arith) (ground arith) (ground arith) in
                rw (e, nz) same
          ]
    ]

    added : ip' ≡ record ip { addrs = ip'.addrs } → Added sb c c' ip ip' bn x
    added others = record {
      owned = record {
        laid = Grown-IsLaid sb c c' x ind g v.fits v.laid;
        fits = v.fits;
        boot = let m = g.marks 0 (let f = v.fits in omega arith) in let b = v.boot in ground arith;
        small = v.small;
        slots = slots;
        top = rw top (Grown-is_owned sb c c' x ind (indirect ip) g v.top);
        each = λ b h. elim (Bool-cases (b == bn)) [
          | inl here ↦
              subst (λ y. is_owned sb c' y ≡ true) (sym (blocks b h ∙ rw here refl))
                (Grown-new sb c c' x ind g)
          | inr there ↦
              subst (λ y. is_owned sb c' y ≡ true) (sym (blocks b h ∙ rw there refl))
                (Grown-is_owned sb c c' x ind (block_of c ip b) g (v.each b h))
        ];
        below = added-below;
        differ = added-differ;
      };
      nonzero = g.nonzero;
      blocks = blocks;
      bytes = added-bytes;
      others = others;
      cost = let e = Grown-free sb c c' x ind g in omega arith;
    }

  -- `balloc` for a direct block.
  pub slot-Added :
      (fs fs' : Fs) (ip : Inode) (bn x : ℕ)
      → IsOwned sb fs.cache ip
      → bn < 12
      → get_or ip.addrs bn 0 ≡ 0
      → balloc sb fs ≡ some (x, fs')
      → Added sb fs.cache fs'.cache ip (record ip { addrs = set ip.addrs bn x }) bn x
  slot-Added fs fs' ip bn x v low empty e =
      let g : Grown sb fs.cache fs'.cache x 0 =
        Taken-Grown sb fs fs' x 0 v.laid v.boot (balloc-Taken sb fs fs' x e) in
      let slots : length (set ip.addrs bn x) ≡ 13 = length-set ip.addrs bn x ∙ v.slots in
      let top : get_or (set ip.addrs bn x) 12 0 ≡ get_or ip.addrs 12 0 =
        get_or-set_ne ip.addrs x 0 (omega arith) in
      let n = v.slots in
      added fs.cache fs'.cache ip (record ip { addrs = set ip.addrs bn x }) bn x 0 v g slots top
        refl
        (λ b h. elim (Bool-cases (ltb b 12)) [
          | inl small ↦ rw small (get_or-set sb ip.addrs bn b x (omega arith))
          | inr big ↦
              let apart : (b == bn) ≡ false = ground arith in
              let same : block_of fs'.cache (record ip { addrs = set ip.addrs bn x }) b
                  ≡ block_of fs'.cache ip b =
                rw (big, top) refl in
              rw apart (same ∙ Grown-block_of sb fs.cache fs'.cache ip x b v g)
        ])
        (ground arith) refl

  -- `balloc` for the indirect block.
  module _ (fs fs' : Fs) (ip : Inode) (x : ℕ) (v : IsOwned sb fs.cache ip) (empty : indirect ip ≡ 0)
      (t : Taken sb fs x fs') where
    abbrev pub with_top : Inode
    with_top = record ip { addrs = set ip.addrs 12 x }

    pub grown : Grown sb fs.cache fs'.cache x 0
    grown = Taken-Grown sb fs fs' x 0 v.laid v.boot t

    pub new_top : indirect with_top ≡ x
    new_top = let n = v.slots in get_or-set_self ip.addrs 12 x 0 (omega arith)

    no_words : (b : ℕ) → b < 140 → (ltb b 12) ≡ false → get_word fs'.cache x (b - 12) ≡ 0
    no_words b h high =
        let near : 4 * (b - 12) + 3 < 512 = ground arith in
        omega (
          arith,
          Taken-zero sb fs fs' x (4 * (b - 12)) t,
          Taken-zero sb fs fs' x (4 * (b - 12) + 1) t,
          Taken-zero sb fs fs' x (4 * (b - 12) + 2) t,
          Taken-zero sb fs fs' x (4 * (b - 12) + 3) t,
        )

    top_blocks : (b : ℕ) → b < 140 → block_of fs'.cache with_top b ≡ block_of fs.cache ip b
    top_blocks b h = elim (Bool-cases (ltb b 12)) [
      | inl low ↦ rw low (get_or-set_ne ip.addrs x 0 (ground arith))
      | inr high ↦
          let w = no_words b h high in
          let n = grown.nonzero in rw (high, empty, new_top) (ground arith)
    ]

    top_bytes :
        (b i : ℕ) → b < 140 → i < 512 → byte_of fs'.cache with_top b i ≡ byte_of fs.cache ip b i
    top_bytes b i h k = elim (Bool-cases (block_of fs.cache ip b == 0)) [
      | inl z ↦ rw (top_blocks b h, z) refl
      | inr nz ↦
          let f = fresh sb fs.cache x (block_of fs.cache ip b) grown.unused (v.each b h) in
          let o = v.each b h in
          let same =
            grown.same (block_of fs.cache ip b) i (ground arith) (ground arith) (ground arith) in
          rw (top_blocks b h, nz) same
    ]

    pub top_added : Same sb fs.cache fs'.cache ip with_top
    top_added = record {
      owned = record {
        laid = Grown-IsLaid sb fs.cache fs'.cache x 0 grown v.fits v.laid;
        fits = v.fits;
        boot =
            let m = grown.marks 0 (let f = v.fits in omega arith) in let b = v.boot in ground arith;
        small = v.small;
        slots = length-set ip.addrs 12 x ∙ v.slots;
        top = rw new_top (Grown-new sb fs.cache fs'.cache x 0 grown);
        each = λ b h.
            rw (top_blocks b h) (
              Grown-is_owned sb fs.cache fs'.cache x 0 (block_of fs.cache ip b) grown (v.each b h));
        below = λ b h.
            rw (top_blocks b h, new_top)
              (fresh sb fs.cache x (block_of fs.cache ip b) grown.unused (v.each b h));
        differ = λ a b h k. rw (top_blocks a h, top_blocks b k) (v.differ a b h k);
      };
      blocks = top_blocks;
      bytes = top_bytes;
      others = refl;
      cost = let e = Grown-free sb fs.cache fs'.cache x 0 grown in omega arith;
    }

  -- `balloc` for a word of the indirect block.
  module _ (fs fs' : Fs) (ip : Inode) (j x : ℕ) (v : IsOwned sb fs.cache ip)
      (present : (indirect ip == 0) ≡ false) (range : j < 128)
      (empty : get_word fs.cache (indirect ip) j ≡ 0) (t : Taken sb fs x fs') where
    abbrev pub worded : Blocks
    worded = put_word fs'.cache (indirect ip) j x

    first-Grown : (ind : ℕ) → Grown sb fs.cache fs'.cache x ind
    first-Grown ind = Taken-Grown sb fs fs' x ind v.laid v.boot t

    top_apart : (indirect ip == x) ≡ false
    top_apart =
        let f = fresh sb fs.cache x (indirect ip) (first-Grown 0).unused v.top in ground arith

    pub word-Grown : Grown sb fs.cache worded x (indirect ip)
    word-Grown =
        let g = first-Grown (indirect ip) in
        let o = v.top in
        record {
          range = g.range;
          nonzero = g.nonzero;
          out = g.out;
          unused = g.unused;
          marks = λ a h.
              marked-other sb fs'.cache worded a h
                (λ b i m. let w : (indirect ip == b) ≡ false = ground arith in ground arith)
              ∙ g.marks a h;
          same = λ a i d m n. rw n (g.same a i d m n);
          clear = λ i h n. rw n (g.clear i h n);
        }

    words :
        (k : ℕ)
        → get_word worded (indirect ip) k
          ≡ (if k == j then x else get_word fs.cache (indirect ip) k)
    words k =
        let o = v.top in
        let g = first-Grown 0 in
        let kept_word =
          get_word-same sb fs.cache fs'.cache (indirect ip) k (λ i.
            g.same (indirect ip) i (ground (arith, top_apart)) (ground arith) (ground arith)) in
        get_word-put_word sb fs'.cache (indirect ip) j x k
          (let r = g.range in let m = v.small in omega arith)
        ∙ ap (λ w. if k == j then x else w) kept_word

    pub word-Added : Added sb fs.cache worded ip ip (12 + j) x
    word-Added =
        added fs.cache worded ip ip (12 + j) x (indirect ip) v word-Grown v.slots refl
          (ground arith)
          (λ b h. elim (Bool-cases (ltb b 12)) [
            | inl low ↦ let apart : (b == 12 + j) ≡ false = ground arith in rw (low, apart) refl
            | inr high ↦
                let at : (b == 12 + j) ≡ (b - 12 == j) = ground arith in
                rw (high, present, at) (words (b - 12))
          ])
          (let at : 12 + j - 12 ≡ j = omega arith in
            let high : ltb (12 + j) 12 ≡ false = ground arith in rw (high, present, at) empty)
          refl
