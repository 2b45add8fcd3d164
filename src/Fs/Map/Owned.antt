-- ===== src/Fs/Map/Owned.antt =====
-- The invariant of an inode's blocks, and what a call of bmap may change.
use os_project2_test.Prelude.{
  ℕ, ◌+◌, ◌*◌, ◌/◌, ◌%◌, ◌-◌, ◌^◌, ◌≡◌, ◌≤◌, ◌<◌, refl, ap, ◌∙◌, Bool, true, false, not, ◌&&◌, ◌||◌,
  List, ◌==◌, ltb, if◌then◌else◌, arith, Bool-cases, inl, inr, get_or, set, length, get_or-set_self,
  get_or-set_ne,
}
use os_project2_test.Fs.{Blocks, Superblock, Inode, Fs, get_word, put_word}
use os_project2_test.Fs.Bitmap.Laws.{
  marked, is_meta, IsLaid, Taken, Taken-marked, Taken-other, Taken-zero, Taken-out,
}
use os_project2_test.Fs.Bitmap.Count.{free_count, free_count-mark}

abbrev pub indirect : Inode → ℕ
indirect ip = get_or ip.addrs 12 0

-- The block of an inode, 0 if there is none.
abbrev pub block_of : Blocks → Inode → ℕ → ℕ
block_of c ip bn =
    if ltb bn 12
    then get_or ip.addrs bn 0
    else if indirect ip == 0
    then 0
    else get_word c (indirect ip) (bn - 12)

-- A byte of an inode's `bn`th block, 0 if it has no such block.
abbrev pub byte_of : Blocks → Inode → ℕ → ℕ → ℕ
byte_of c ip bn i = if block_of c ip bn == 0 then 0 else c (block_of c ip bn) i

module _ (sb : Superblock) where
  -- No block, or one that is taken, among the data.
  abbrev pub is_owned : Blocks → ℕ → Bool
  is_owned c x = x == 0 || (ltb x sb.size && marked sb c x && not (is_meta sb x))

  -- The inode's blocks are taken, and all different.
  pub record IsOwned (c : Blocks) (ip : Inode) : Type 0 where
    pub laid : IsLaid sb c
    pub fits : sb.size / 4096 + sb.bmapstart < sb.size
    pub boot : marked sb c 0 ≡ true
    pub small : sb.size < 2 ^ 32
    pub slots : length ip.addrs ≡ 13
    pub top : is_owned c (indirect ip) ≡ true
    pub each : (b : ℕ) → b < 140 → is_owned c (block_of c ip b) ≡ true
    pub below :
        (b : ℕ) → b < 140 → block_of c ip b == 0 || not (block_of c ip b == indirect ip) ≡ true
    pub differ :
        (a b : ℕ)
        → a < 140
        → b < 140
        → block_of c ip a == 0 || a == b || not (block_of c ip a == block_of c ip b) ≡ true

  -- A free block is none of an inode's.
  pub fresh :
      (c : Blocks) (x y : ℕ)
      → marked sb c x ≡ false
      → is_owned c y ≡ true
      → y == 0 || not (y == x) ≡ true
  fresh c x y f o = elim (Bool-cases (y == x)) [
    | inl same ↦
        let e : y ≡ x = ground arith in
        let g : marked sb c y ≡ false = ap (marked sb c) e ∙ f in ground arith
    | inr other ↦ ground arith
  ]

  -- One block `x` more is taken, and no data block but it and `ind` changes.
  pub record Grown (c c' : Blocks) (x ind : ℕ) : Type 0 where
    pub range : x < sb.size
    pub nonzero : (x == 0) ≡ false
    pub out : is_meta sb x ≡ false
    pub unused : marked sb c x ≡ false
    pub marks : (a : ℕ) → a < sb.size → marked sb c' a ≡ (x == a || marked sb c a)
    pub same :
        (a i : ℕ) → (x == a) ≡ false → is_meta sb a ≡ false → (ind == a) ≡ false → c' a i ≡ c a i
    pub clear : (i : ℕ) → i < 512 → (ind == x) ≡ false → c' x i ≡ 0

  pub Grown-is_owned :
      (c c' : Blocks) (x ind y : ℕ) → Grown c c' x ind → is_owned c y ≡ true → is_owned c' y ≡ true
  Grown-is_owned c c' x ind y g o = elim (Bool-cases (ltb y sb.size)) [
    | inl h ↦ let m = g.marks y (ground arith) in ground arith
    | inr h ↦ ground arith
  ]

  pub Grown-new : (c c' : Blocks) (x ind : ℕ) → Grown c c' x ind → is_owned c' x ≡ true
  Grown-new c c' x ind g =
      let m = g.marks x g.range in let r = g.range in let o = g.out in ground arith

  pub Grown-IsLaid :
      (c c' : Blocks) (x ind : ℕ)
      → Grown c c' x ind
      → sb.size / 4096 + sb.bmapstart < sb.size
      → IsLaid sb c
      → IsLaid sb c'
  Grown-IsLaid c c' x ind g fits laid b h =
      let m = g.marks b (ground arith) in let l = laid b h in ground arith

  pub Taken-Grown :
      (fs fs' : Fs) (x ind : ℕ)
      → IsLaid sb fs.cache
      → marked sb fs.cache 0 ≡ true
      → Taken sb fs x fs'
      → Grown fs.cache fs'.cache x ind
  Taken-Grown fs fs' x ind laid boot t = record {
    range = t.in_range;
    nonzero = elim (Bool-cases (x == 0)) [
      | inl z ↦
          let e : x ≡ 0 = ground arith in
          let m : marked sb fs.cache x ≡ true = ap (marked sb fs.cache) e ∙ boot in
          let f = t.was_free in ground arith
      | inr n ↦ n
    ];
    out = Taken-out sb fs fs' x t laid;
    unused = t.was_free;
    marks = λ a h. Taken-marked sb fs fs' x a t laid h;
    same = λ a i d o _. Taken-other sb fs fs' x a i t d o;
    clear = λ i h _. Taken-zero sb fs fs' x i t h;
  }

  pub Grown-free :
      (c c' : Blocks) (x ind : ℕ)
      → Grown c c' x ind
      → free_count sb c sb.size ≡ 1 + free_count sb c' sb.size
  Grown-free c c' x ind g =
      let e = free_count-mark sb c c' x sb.size g.unused g.marks in let r = g.range in ground arith

  -- The words of a block that keeps its bytes.
  pub get_word-same :
      (c c' : Blocks) (b j : ℕ) → ((i : ℕ) → c' b i ≡ c b i) → get_word c' b j ≡ get_word c b j
  get_word-same c c' b j h = omega (arith, h (4 * j), h (4 * j + 1), h (4 * j + 2), h (4 * j + 3))

  -- Another block is taken, without a change to the inode.
  pub Grown-block_of :
      (c c' : Blocks) (ip : Inode) (x b : ℕ)
      → IsOwned c ip
      → Grown c c' x 0
      → block_of c' ip b ≡ block_of c ip b
  Grown-block_of c c' ip x b v g = elim (Bool-cases (ltb b 12)) [
    | inl low ↦ rw low refl
    | inr high ↦ elim (Bool-cases (indirect ip == 0)) [
      | inl z ↦ rw (high, z) refl
      | inr nz ↦
          let f = fresh c x (indirect ip) g.unused v.top in
          let o = v.top in
          let w =
            get_word-same c c' (indirect ip) (b - 12)
              (λ i. g.same (indirect ip) i (ground arith) (ground arith) (ground arith)) in
          rw (high, nz) w
    ]
  ]

  -- `x` is the `bn`th block of the inode afterwards; the others, and all bytes, are as before.
  pub record Added (c c' : Blocks) (ip ip' : Inode) (bn x : ℕ) : Type 0 where
    pub owned : IsOwned c' ip'
    pub nonzero : (x == 0) ≡ false
    pub blocks : (b : ℕ) → b < 140 → block_of c' ip' b ≡ (if b == bn then x else block_of c ip b)
    pub bytes : (b i : ℕ) → b < 140 → i < 512 → byte_of c' ip' b i ≡ byte_of c ip b i
    pub others : ip' ≡ record ip { addrs = ip'.addrs }
    pub cost : free_count sb c sb.size ≤ 2 + free_count sb c' sb.size

  -- Nothing is added: the block is there already.
  pub kept :
      (c : Blocks) (ip : Inode) (bn : ℕ)
      → IsOwned c ip
      → (block_of c ip bn == 0) ≡ false
      → Added c c ip ip bn (block_of c ip bn)
  kept c ip bn v there = record {
    owned = v;
    nonzero = there;
    blocks = λ b h. elim (Bool-cases (b == bn)) [
      | inl here ↦ let at : b ≡ bn = ground arith in rw here (ap (block_of c ip) at)
      | inr there ↦ rw there refl
    ];
    bytes = λ b i h k. refl;
    others = refl;
    cost = omega arith;
  }

  -- The inode's blocks and bytes are as before.
  pub record Same (c c' : Blocks) (ip ip' : Inode) : Type 0 where
    pub owned : IsOwned c' ip'
    pub blocks : (b : ℕ) → b < 140 → block_of c' ip' b ≡ block_of c ip b
    pub bytes : (b i : ℕ) → b < 140 → i < 512 → byte_of c' ip' b i ≡ byte_of c ip b i
    pub others : ip' ≡ record ip { addrs = ip'.addrs }
    pub cost : free_count sb c sb.size ≤ 1 + free_count sb c' sb.size

  pub Same-Added :
      (c c' c'' : Blocks) (ip ip' ip'' : Inode) (bn x : ℕ)
      → Same c c' ip ip'
      → Added c' c'' ip' ip'' bn x
      → free_count sb c' sb.size ≤ 1 + free_count sb c'' sb.size
      → Added c c'' ip ip'' bn x
  Same-Added c c' c'' ip ip' ip'' bn x s a h = record {
    owned = a.owned;
    nonzero = a.nonzero;
    blocks = λ b h. a.blocks b h ∙ ap (λ y. if b == bn then x else y) (s.blocks b h);
    bytes = λ b i h k. a.bytes b i h k ∙ s.bytes b i h k;
    others = a.others ∙ ap (λ (q : Inode). record q { addrs = ip''.addrs }) s.others;
    cost = let k = s.cost in omega arith;
  }

  pub get_or-set :
      (xs : List ℕ) (i b x : ℕ)
      → i < length xs
      → get_or (set xs i x) b 0 ≡ (if b == i then x else get_or xs b 0)
  get_or-set xs i b x h = elim (Bool-cases (b == i)) [
    | inl here ↦
        let at : b ≡ i = ground arith in
        rw here (ap (λ j. get_or (set xs i x) j 0) at ∙ get_or-set_self xs i x 0 h)
    | inr there ↦ rw there (get_or-set_ne xs x 0 (ground arith))
  ]

  pub get_word-put_word :
      (c : Blocks) (b j w k : ℕ)
      → w < 2 ^ 32
      → get_word (put_word c b j w) b k ≡ (if k == j then w else get_word c b k)
  get_word-put_word c b j w k h = elim (Bool-cases (k == j)) [
    | inl here ↦
        let q0 : ((4 * k) / 4 == j) ≡ true = ground arith in
        let q1 : ((4 * k + 1) / 4 == j) ≡ true = ground arith in
        let q2 : ((4 * k + 2) / 4 == j) ≡ true = ground arith in
        let q3 : ((4 * k + 3) / 4 == j) ≡ true = ground arith in
        let m0 : (4 * k) % 4 ≡ 0 = omega arith in
        let m1 : (4 * k + 1) % 4 ≡ 1 = omega arith in
        let m2 : (4 * k + 2) % 4 ≡ 2 = omega arith in
        let m3 : (4 * k + 3) % 4 ≡ 3 = omega arith in
        let b0 : put_word c b j w b (4 * k) ≡ w % 2 ^ 8 = rw (self, q0, m0) refl in
        let b1 : put_word c b j w b (4 * k + 1) ≡ w / 2 ^ 8 % 2 ^ 8 = rw (self, q1, m1) refl in
        let b2 : put_word c b j w b (4 * k + 2) ≡ w / 2 ^ 16 % 2 ^ 8 = rw (self, q2, m2) refl in
        let b3 : put_word c b j w b (4 * k + 3) ≡ w / 2 ^ 24 % 2 ^ 8 = rw (self, q3, m3) refl in
        rw (here, b0, b1, b2, b3) (omega arith)
    | inr there ↦
        let q0 : ((4 * k) / 4 == j) ≡ false = ground arith in
        let q1 : ((4 * k + 1) / 4 == j) ≡ false = ground arith in
        let q2 : ((4 * k + 2) / 4 == j) ≡ false = ground arith in
        let q3 : ((4 * k + 3) / 4 == j) ≡ false = ground arith in
        rw (there, self, q0, q1, q2, q3) refl
  ]
    where
      self : (b == b) ≡ true
      self = ground arith
