-- ===== src/Fs/Map/Trunc.antt =====
-- The loops of itrunc: they free the blocks that an inode lists.
use os_project2_test.Prelude.{
  ℕ, zero, suc, ◌+◌, ◌≡◌, ◌≤◌, ◌<◌, refl, ap, ap₂, ◌∙◌, Bool, true, false, not, ◌&&◌, ◌||◌, some,
  ◌==◌, ltb, leb, if◌then◌else◌, arith, Bool-cases, inl, inr, get_or, set, length, length-set,
}
use os_project2_test.Fs.{Blocks, Superblock, Inode, Fs, get_word}
use os_project2_test.Fs.Bitmap.Laws.{marked, is_meta}
use os_project2_test.Fs.Bitmap.Count.{Freed, bfree-Freed}
use os_project2_test.Fs.Map.{free_slots, free_words}
use os_project2_test.Fs.Map.Owned.{get_word-same, get_or-set}

-- Block `a` is one of `f i`, ..., `f (i + n - 1)`.
abbrev pub has : (ℕ → ℕ) → ℕ → ℕ → ℕ → Bool
has f i zero a = false
has f i (suc n) a = f i == a && not (a == 0) || has f (suc i) n a

-- The numbers are taken blocks of the data, or 0, and different.
pub record AllTaken (sb : Superblock) (c : Blocks) (f : ℕ → ℕ) (i n : ℕ) : Type 0 where
  pub taken :
      (k : ℕ) → i ≤ k → k < i + n → f k == 0 || (ltb (f k) sb.size && marked sb c (f k)) ≡ true
  pub differ : (j k : ℕ) → i ≤ j → j < k → k < i + n → f j == 0 || not (f j == f k) ≡ true

module _ (sb : Superblock) where
  -- What the loops leave: the marks of `has` are gone, and no data block has changed.
  pub record Dropped (c c' : Blocks) (f : ℕ → ℕ) (i n : ℕ) : Type 0 where
    pub marks : (a : ℕ) → marked sb c' a ≡ (marked sb c a && not (has f i n a))
    pub same : (a j : ℕ) → is_meta sb a ≡ false → c' a j ≡ c a j

  AllTaken-next :
      (c c' : Blocks) (f : ℕ → ℕ) (i n : ℕ)
      → (f i == 0) ≡ false
      → AllTaken sb c f i (suc n)
      → Freed sb c c' (f i)
      → AllTaken sb c' f (suc i) n
  AllTaken-next c c' f i n nz t g = record {
    taken = λ k h l.
        let d = t.differ i k (omega arith) h (omega arith) in
        let o = t.taken k (omega arith) (omega arith) in let m = g.marks (f k) in ground arith;
    differ = λ j k h l m. t.differ j k (omega arith) l (omega arith);
  }

  AllTaken-skip :
      (c : Blocks) (f : ℕ → ℕ) (i n : ℕ) → AllTaken sb c f i (suc n) → AllTaken sb c f (suc i) n
  AllTaken-skip c f i n t = record {
    taken = λ k h l. t.taken k (omega arith) (omega arith);
    differ = λ j k h l m. t.differ j k (omega arith) l (omega arith);
  }

  Dropped-skip :
      (c c' : Blocks) (f : ℕ → ℕ) (i n : ℕ)
      → (f i == 0) ≡ true
      → Dropped c c' f (suc i) n
      → Dropped c c' f i (suc n)
  Dropped-skip c c' f i n z d = record {
    marks = λ a. let m = d.marks a in ground arith;
    same = d.same;
  }

  Dropped-next :
      (c c' c'' : Blocks) (f : ℕ → ℕ) (i n : ℕ)
      → (f i == 0) ≡ false
      → f i < sb.size
      → Freed sb c c' (f i)
      → Dropped c' c'' f (suc i) n
      → Dropped c c'' f i (suc n)
  Dropped-next c c' c'' f i n nz r g d = record {
    marks = λ a. let m = d.marks a in let k = g.marks a in ground arith;
    same = λ a j h. d.same a j h ∙ g.same a j (ground arith);
  }

  pub free_words_lem :
      (f : ℕ → ℕ) (ind n j : ℕ) (fs : Fs)
      → is_meta sb ind ≡ false
      → ((k : ℕ) → get_word fs.cache ind k ≡ f k)
      → AllTaken sb fs.cache f j n
      → (fs' : Fs) × (free_words sb ind n j fs ≡ some fs') × Dropped fs.cache fs'.cache f j n
  unfolding free_words
  free_words_lem f ind zero j fs out at t =
      (fs, refl, record { marks = λ a. ground arith; same = λ a j h. refl })
  free_words_lem f ind (suc n) j fs out at t = elim (Bool-cases (f j == 0)) [
    | inl z ↦
        let (fs', e, d) =
          free_words_lem f ind n (suc j) fs out at (AllTaken-skip fs.cache f j n t) in
        (fs', rw (at j, z) e, Dropped-skip fs.cache fs'.cache f j n z d)
    | inr nz ↦
        let o = t.taken j (omega arith) (omega arith) in
        let (fs', b, g) = bfree-Freed sb fs (f j) (ground arith) in
        let (fs'', e, d) =
          free_words_lem f ind n (suc j) fs' out
            (λ k.
              get_word-same sb fs.cache fs'.cache ind k (λ i. g.same ind i (ground arith)) ∙ at k)
            (AllTaken-next fs.cache fs'.cache f j n nz t g) in
        (
          fs'',
          rw (at j, nz, b) e,
          Dropped-next fs.cache fs'.cache fs''.cache f j n nz (ground arith) g d,
        )
  ]

  -- The slots from `i` on, `n` of them, are cleared.
  pub record Cleared (ip ip' : Inode) (i n : ℕ) : Type 0 where
    pub slots : length ip'.addrs ≡ length ip.addrs
    pub slot :
        (k : ℕ)
        → get_or ip'.addrs k 0 ≡ (if leb i k && ltb k (i + n) then 0 else get_or ip.addrs k 0)
    pub others : ip' ≡ record ip { addrs = ip'.addrs }

  Cleared-next :
      (ip ip' : Inode) (i n : ℕ)
      → i < length ip.addrs
      → Cleared (record ip { addrs = set ip.addrs i 0 }) ip' (suc i) n
      → Cleared ip ip' i (suc n)
  Cleared-next ip ip' i n h c = record {
    slots = c.slots ∙ length-set ip.addrs i 0;
    slot = λ k. let e = c.slot k in let q = get_or-set sb ip.addrs i k 0 h in ground arith;
    others = c.others;
  }

  Cleared-skip :
      (ip ip' : Inode) (i n k : ℕ)
      → get_or ip.addrs i 0 ≡ 0
      → Cleared ip ip' (suc i) n
      → get_or ip'.addrs k 0 ≡ (if leb i k && ltb k (i + suc n) then 0 else get_or ip.addrs k 0)
  Cleared-skip ip ip' i n k z c =
      let e = c.slot k in
      elim (Bool-cases (k == i)) [
        | inl here ↦
            let p : k ≡ i = ground arith in
            let q : get_or ip.addrs k 0 ≡ 0 = ap (λ j. get_or ip.addrs j 0) p ∙ z in ground arith
        | inr there ↦ ground arith
      ]

  pub free_slots_lem :
      (f : ℕ → ℕ) (n i : ℕ) (fs : Fs) (ip : Inode)
      → i + n ≤ length ip.addrs
      → ((k : ℕ) → i ≤ k → k < i + n → get_or ip.addrs k 0 ≡ f k)
      → AllTaken sb fs.cache f i n
      → (fs' : Fs) × (ip' : Inode) × (free_slots sb n i fs ip ≡ some (fs', ip'))
        × Dropped fs.cache fs'.cache f i n
        × Cleared ip ip' i n
  unfolding free_slots
  free_slots_lem f zero i fs ip h at t = (
    fs,
    ip,
    refl,
    record { marks = λ a. ground arith; same = λ a j h. refl },
    record { slots = refl; slot = λ k. ground arith; others = refl },
  )
  free_slots_lem f (suc n) i fs ip h at t = elim (Bool-cases (f i == 0)) [
    | inl z ↦
        let (fs', ip', e, d, c) =
          free_slots_lem f n (suc i) fs ip (omega arith) (λ k l m. at k (omega arith) (omega arith))
            (AllTaken-skip fs.cache f i n t) in
        (
          fs',
          ip',
          rw (at i (omega arith) (omega arith), z) e,
          Dropped-skip fs.cache fs'.cache f i n z d,
          record {
            slots = c.slots;
            slot = λ k.
                Cleared-skip ip ip' i n k (let a = at i (omega arith) (omega arith) in ground arith)
                  c;
            others = c.others;
          },
        )
    | inr nz ↦
        let o = t.taken i (omega arith) (omega arith) in
        let (fs', b, g) = bfree-Freed sb fs (f i) (ground arith) in
        let (fs'', ip'', e, d, c) =
          free_slots_lem f n (suc i) fs' (record ip { addrs = set ip.addrs i 0 })
            (let l = length-set ip.addrs i 0 in omega arith)
            (λ k l m.
              let a = at k (omega arith) (omega arith) in
              let q = get_or-set sb ip.addrs i k 0 (omega arith) in ground arith)
            (AllTaken-next fs.cache fs'.cache f i n nz t g) in
        (
          fs'',
          ip'',
          rw (at i (omega arith) (omega arith), nz, b) e,
          Dropped-next fs.cache fs'.cache fs''.cache f i n nz (ground arith) g d,
          Cleared-next ip ip'' i n (omega arith) c,
        )
  ]

pub has-append :
    (f : ℕ → ℕ) (i j m n k a : ℕ)
    → k ≡ m + n
    → j ≡ i + m
    → has f i k a ≡ (has f i m a || has f j n a)
has-append f i j zero n k a e d =
    ap₂ (λ l o. has f l o a) (let q : i ≡ j = omega arith in q) (let q : k ≡ n = omega arith in q)
has-append f i j (suc m) n zero a e d = absurd (omega arith)
has-append f i j (suc m) n (suc k) a e d =
    let rest = has-append f (suc i) j m n k a (omega arith) (omega arith) in ground arith

pub has-cong :
    (f g : ℕ → ℕ) (i j n a : ℕ)
    → ((k : ℕ) → k < n → f (i + k) ≡ g (j + k))
    → has f i n a ≡ has g j n a
has-cong f g i j zero a h = refl
has-cong f g i j (suc n) a h =
    let first : f i ≡ g j =
      ap f (let e : i ≡ i + 0 = omega arith in e)
      ∙ h 0 (omega arith)
      ∙ ap g (let e : j + 0 ≡ j = omega arith in e) in
    let rest = has-cong f g (suc i) (suc j) n a (λ k l.
      ap f (let e : suc i + k ≡ i + suc k = omega arith in e)
      ∙ h (suc k) (omega arith)
      ∙ ap g (let e : j + suc k ≡ suc j + k = omega arith in e)) in
    rw (first, rest) refl

pub has-none :
    (f : ℕ → ℕ) (i n a : ℕ)
    → ((k : ℕ) → i ≤ k → k < i + n → (f k == 0 || not (f k == a)) ≡ true)
    → has f i n a ≡ false
has-none f i zero a h = refl
has-none f i (suc n) a h =
    let first = h i (omega arith) (omega arith) in
    let rest = has-none f (suc i) n a (λ k l m. h k (omega arith) (omega arith)) in ground arith
