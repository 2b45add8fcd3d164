-- ===== src/Fs/Map/Free.antt =====
-- The loops of itrunc give back the blocks of an inode, and no others.
use os_project2_test.Prelude.{
  ℕ, zero, suc, ◌+◌, ◌-◌, ◌≡◌, ◌≤◌, refl, ap, sym, ◌∙◌, subst, Bool, true, false, not, ◌&&◌, ◌||◌,
  some, List, [], ◌∷◌, ◌==◌, ltb, leb, arith, Bool-cases, inl, inr, get_or, set, length, length-set,
}
use os_project2_test.Fs.{Blocks, Superblock, Inode, Fs, get_word}
use os_project2_test.Fs.Bitmap.{bfree}
use os_project2_test.Fs.Bitmap.Laws.{marked, is_meta}
use os_project2_test.Fs.Bitmap.Count.{bfree-Freed}
use os_project2_test.Fs.Map.{free_slots, free_words, free_indirect}
use os_project2_test.Fs.Map.Owned.{indirect, block_of, IsOwned, get_word-same, get_or-set}
use os_project2_test.Fs.Map.Trunc.{
  has, AllTaken, Dropped, Cleared, free_words_lem, free_slots_lem, has-append, has-cong, has-none,
}

-- Block `a` is the inode's: of its data, or its indirect block.
abbrev pub has_block : Blocks → Inode → ℕ → Bool
has_block c ip a = has (block_of c ip) 0 140 a || (indirect ip == a && not (a == 0))

or_false : (b : Bool) → (b || false) ≡ b
or_false true = refl
or_false false = refl

drop_top :
    {h m' : Bool} (m s : Bool) (top a : ℕ)
    → (top == 0) ≡ true
    → h ≡ s
    → m' ≡ (m && not s)
    → m' ≡ (m && not (h || (top == a && not (a == 0))))
drop_top m s top a z e f =
    f
    ∙ rw e (
        let q : (top == a && not (a == 0)) ≡ false = ground arith in
        rw q (ap (λ b. m && not b) (sym (or_false s))))

drop_all :
    {h m1 m2 m3 : Bool} (m s w : Bool) (top a : ℕ)
    → (top == 0) ≡ false
    → h ≡ (s || w)
    → m1 ≡ (m && not s)
    → m2 ≡ (m1 && not w)
    → m3 ≡ (not (top == a) && m2)
    → m3 ≡ (m && not (h || (top == a && not (a == 0))))
drop_all m s w top a nz e f g k =
    let q : (top == a && not (a == 0)) ≡ (top == a) = ground arith in
    k ∙ rw (g, f, e, q) (bools (top == a) m s w)
  where
    bools : (t m s w : Bool) → (not t && (m && not s && not w)) ≡ (m && not (s || w || t))
    bools t m s w = ground arith

module _ (sb : Superblock) where
  -- What `itrunc` does to the inode and the free map.
  pub record Truncated (c c' : Blocks) (ip ip' : Inode) : Type 0 where
    pub marks : (a : ℕ) → marked sb c' a ≡ (marked sb c a && not (has_block c ip a))
    pub same : (a j : ℕ) → is_meta sb a ≡ false → c' a j ≡ c a j
    pub slots : length ip'.addrs ≡ 13
    pub empty : (k : ℕ) → get_or ip'.addrs k 0 ≡ 0
    pub others : ip' ≡ record ip { addrs = ip'.addrs; size = 0 }

  get_or-out : (xs : List ℕ) (k : ℕ) → length xs ≤ k → get_or xs k 0 ≡ 0
  get_or-out [] k h = refl
  get_or-out (x ∷ xs) zero h = absurd (omega arith)
  get_or-out (x ∷ xs) (suc k) h = get_or-out xs k (omega arith)

  slots_taken : (c : Blocks) (ip : Inode) → IsOwned sb c ip → AllTaken sb c (block_of c ip) 0 12
  slots_taken c ip v = record {
    taken = λ k h l. let o = v.each k (omega arith) in ground arith;
    differ = λ j k h l m. let d = v.differ j k (omega arith) (omega arith) in ground arith;
  }

  module _ (c c' : Blocks) (ip : Inode) (v : IsOwned sb c ip) (there : (indirect ip == 0) ≡ false)
      (d : Dropped sb c c' (block_of c ip) 0 12) where
    word_at : (k : ℕ) → block_of c ip (12 + k) ≡ get_word c (indirect ip) k
    word_at k =
        let high : ltb (12 + k) 12 ≡ false = ground arith in
        let at : 12 + k - 12 ≡ k = omega arith in rw (high, there, at) refl

    words_same : (k : ℕ) → get_word c' (indirect ip) k ≡ get_word c (indirect ip) k
    words_same k =
        get_word-same sb c c' (indirect ip) k
          (λ i. d.same (indirect ip) i (let t = v.top in ground arith))

    words_taken : AllTaken sb c' (get_word c (indirect ip)) 0 128
    words_taken = record {
      taken = λ k h l.
          let o = v.each (12 + k) (omega arith) in
          let m = d.marks (block_of c ip (12 + k)) in
          let n =
            has-none (block_of c ip) 0 12 (block_of c ip (12 + k))
              (λ j p q. let e = v.differ j (12 + k) (omega arith) (omega arith) in ground arith) in
          subst (λ w. w == 0 || (ltb w sb.size && marked sb c' w) ≡ true) (word_at k)
            (ground arith);
      differ = λ j k h l m.
          let e = v.differ (12 + j) (12 + k) (omega arith) (omega arith) in
          let p = word_at j in let q = word_at k in ground arith;
    }

    -- The indirect block is taken when its turn comes.
    top_taken :
        (c'' : Blocks)
        → Dropped sb c' c'' (get_word c (indirect ip)) 0 128
        → marked sb c'' (indirect ip) ≡ true
    top_taken c'' e =
        let t = v.top in
        let m = d.marks (indirect ip) in
        let n = e.marks (indirect ip) in
        let slots =
          has-none (block_of c ip) 0 12 (indirect ip) (λ j p q. v.below j (omega arith)) in
        let words = has-none (get_word c (indirect ip)) 0 128 (indirect ip) (λ j p q.
          subst (λ w. w == 0 || not (w == indirect ip) ≡ true) (word_at j)
            (v.below (12 + j) (omega arith))) in
        ground arith

    all_blocks :
        (a : ℕ)
        → has (block_of c ip) 0 140 a
          ≡ (has (block_of c ip) 0 12 a || has (get_word c (indirect ip)) 0 128 a)
    all_blocks a =
        has-append (block_of c ip) 0 12 12 128 140 a (omega arith) (omega arith)
        ∙ ap (λ b. has (block_of c ip) 0 12 a || b)
            (has-cong (block_of c ip) (get_word c (indirect ip)) 12 0 128 a (λ k h.
              word_at k ∙ ap (get_word c (indirect ip)) (let e : k ≡ 0 + k = omega arith in e)))

  all-Cleared :
      (ip ip' : Inode)
      → Cleared sb ip ip' 0 12
      → length ip'.addrs ≡ 13
      → indirect ip' ≡ 0
      → (k : ℕ) → get_or ip'.addrs k 0 ≡ 0
  all-Cleared ip ip' c len top k = elim (Bool-cases (ltb k 12)) [
    | inl low ↦
        let in_range : (leb 0 k && ltb k 12) ≡ true = ground arith in c.slot k ∙ rw in_range refl
    | inr high ↦ elim (Bool-cases (k == 12)) [
      | inl here ↦ let e : k ≡ 12 = ground arith in ap (λ j. get_or ip'.addrs j 0) e ∙ top
      | inr there ↦ get_or-out ip'.addrs k (ground arith)
    ]
  ]

  abbrev FreedTop : Fs → Inode → Fs → Inode → Type 0
  FreedTop fs ip fs' ip' =
      ((a : ℕ) → marked sb fs'.cache a ≡ (marked sb fs.cache a && not (has_block fs.cache ip a)))
      × ((a j : ℕ) → is_meta sb a ≡ false → fs'.cache a j ≡ fs.cache a j)
      × (length ip'.addrs ≡ 13)
      × ((k : ℕ) → get_or ip'.addrs k 0 ≡ 0)
      × (ip' ≡ record ip { addrs = ip'.addrs })

  no_words :
      (c : Blocks) (ip : Inode) (a : ℕ)
      → (indirect ip == 0) ≡ true
      → has (block_of c ip) 0 140 a ≡ has (block_of c ip) 0 12 a
  no_words c ip a z =
      let none_left =
        has-none (block_of c ip) 12 128 a
          (λ k h l. let high : ltb k 12 ≡ false = ground arith in rw (high, z) refl) in
      has-append (block_of c ip) 0 12 12 128 140 a (omega arith) (omega arith)
      ∙ ap (λ b. has (block_of c ip) 0 12 a || b) none_left
      ∙ or_false (has (block_of c ip) 0 12 a)

  top_some :
      (fs fs' fs'' : Fs) (ip : Inode) (ind : ℕ)
      → indirect ip ≡ ind
      → (ind == 0) ≡ false
      → free_words sb ind 128 0 fs ≡ some fs'
      → bfree sb fs' ind ≡ some fs''
      → free_indirect sb fs ip ≡ some (fs'', record ip { addrs = set ip.addrs 12 0 })
  unfolding free_indirect
  top_some fs fs' fs'' ip ind top nz e b = rw (top, nz, e, top, b, free_indirect) refl

  free_indirect_lem :
      (fs fs' : Fs) (ip ip' : Inode)
      → IsOwned sb fs.cache ip
      → Dropped sb fs.cache fs'.cache (block_of fs.cache ip) 0 12
      → Cleared sb ip ip' 0 12
      → (fs'' : Fs) × (ip'' : Inode) × (free_indirect sb fs' ip' ≡ some (fs'', ip''))
        × FreedTop fs ip fs'' ip''
  unfolding free_indirect
  free_indirect_lem fs fs' ip ip' v d c =
      let top : get_or ip'.addrs 12 0 ≡ indirect ip = c.slot 12 in
      let len = v.slots in
      elim (Bool-cases (indirect ip == 0)) [
        | inl z ↦ (
          fs',
          ip',
          rw (top, z) refl,
          (
            λ a.
                drop_top (marked sb fs.cache a) (has (block_of fs.cache ip) 0 12 a) (indirect ip) a
                  z (no_words fs.cache ip a z) (d.marks a),
            d.same,
            c.slots ∙ v.slots,
            all-Cleared ip ip' c (c.slots ∙ v.slots) (let t = top in ground arith),
            c.others,
          ),
        )
        | inr nz ↦
            let f = get_word fs.cache (indirect ip) in
            let (fs'', e, w) =
              free_words_lem sb f (indirect ip) 128 0 fs' (let t = v.top in ground arith)
                (words_same fs.cache fs'.cache ip v nz d)
                (words_taken fs.cache fs'.cache ip v nz d) in
            let (fs3, b, g) =
              bfree-Freed sb fs'' (indirect ip)
                (top_taken fs.cache fs'.cache ip v nz d fs''.cache w) in
            (
              fs3,
              record ip' { addrs = set ip'.addrs 12 0 },
              top_some fs' fs'' fs3 ip' (indirect ip) top nz e b,
              (
                λ a.
                    drop_all (marked sb fs.cache a) (has (block_of fs.cache ip) 0 12 a)
                      (has f 0 128 a) (indirect ip) a nz (all_blocks fs.cache fs'.cache ip v nz d a)
                      (d.marks a) (w.marks a) (g.marks a),
                λ a j h. g.same a j (let t = v.top in ground arith) ∙ w.same a j h ∙ d.same a j h,
                length-set ip'.addrs 12 0 ∙ c.slots ∙ v.slots,
                λ k. elim (Bool-cases (ltb k 13)) [
                  | inl low ↦
                      let s = c.slot k in
                      let q = get_or-set sb ip'.addrs 12 k 0 (let l = c.slots in omega arith) in
                      ground arith
                  | inr high ↦
                      get_or-out (set ip'.addrs 12 0) k
                        (let q = length-set ip'.addrs 12 0 in let l = c.slots in ground arith)
                ],
                ap (λ (q : Inode). record q { addrs = set ip'.addrs 12 0 }) c.others,
              ),
            )
      ]

-- The loops of `itrunc` do not panic on an inode whose blocks are its own.
pub free_blocks_lem :
    (sb : Superblock) (fs : Fs) (ip : Inode)
    → IsOwned sb fs.cache ip
    → (fs' : Fs) × (ip' : Inode) × (fs'' : Fs) × (ip'' : Inode) × (free_slots sb 12 0 fs ip
        ≡ some (fs', ip'))
      × (free_indirect sb fs' ip' ≡ some (fs'', ip''))
      × Truncated sb fs.cache fs''.cache ip (record ip'' { size = 0 })
free_blocks_lem sb fs ip v =
    let (fs', ip', e, d, c) =
      free_slots_lem sb (block_of fs.cache ip) 12 0 fs ip (let l = v.slots in omega arith)
        (λ k h l. let low : ltb k 12 ≡ true = ground arith in rw low refl)
        (slots_taken sb fs.cache ip v) in
    let (fs'', ip'', f, (marks, same, slots, empty, others)) =
      free_indirect_lem sb fs fs' ip ip' v d c in
    (
      fs',
      ip',
      fs'',
      ip'',
      e,
      f,
      record {
        marks = marks;
        same = same;
        slots = slots;
        empty = empty;
        others = ap (λ (q : Inode). record q { size = 0 }) others;
      },
    )
