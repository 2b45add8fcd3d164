-- ===== src/Vm/Table/Owned.antt =====
-- What a write to a page table, or to another frame, leaves of the invariant of an address space.
use os_project2_test.Prelude.{
  ℕ, ◌+◌, ◌/◌, ◌%◌, ◌^◌, ◌≡◌, ◌<◌, refl, sym, ap, ◌∙◌, true, false, not, ◌&&◌, ◌||◌, ◌==◌, ltb,
  if◌then◌else◌, arith, Bool-cases, inl, inr,
}
use os_project2_test.Fs.{Blocks}
use os_project2_test.Vm.{Vm, pte_at, set_pte, is_present, pte_frame}
use os_project2_test.Vm.Table.{
  pte_at-same, set_pte-other, pte_at-set_pte, entry, Owner, is_table, in_range, is_spare, on_list,
  IsSpace, entry-same,
}

-- The memory is the same in the frames of the directory and the tables.
abbrev pub SameTables : Owner → Blocks → Blocks → Type 0
SameTables own m m' = (f j : ℕ) → is_table (own f) ≡ true → m' f j ≡ m f j

module _ (kernel_end : ℕ) (s : Vm) (d : ℕ) (own : Owner) (ok : IsSpace kernel_end s d own) where
  dir_is_table : is_table (own d) ≡ true
  dir_is_table = let e = ok.dir in ground arith

  table_is_table :
      (i : ℕ)
      → i < 1024
      → is_present (pte_at s.mem d i) ≡ true
      → own (pte_frame (pte_at s.mem d i)) ≡ 3 + i
  table_is_table i h p = let t = ok.tables i h in ground arith

  pub directory-keep :
      (m' : Blocks) (i : ℕ) → SameTables own s.mem m' → pte_at m' d i ≡ pte_at s.mem d i
  directory-keep m' i h = pte_at-same s.mem m' d i (λ j. h d j dir_is_table)

  pub entry-keep :
      (m' : Blocks) (n : ℕ) → SameTables own s.mem m' → n < 2 ^ 20 → entry m' d n ≡ entry s.mem d n
  entry-keep m' n h r =
      entry-same s.mem m' d n (λ j. h d j dir_is_table)
        (λ p j.
          let e = table_is_table (n / 1024) (omega arith) p in
          h (pte_frame (pte_at s.mem d (n / 1024))) j (ground arith))

  -- Another frame changes its bytes, or is taken or given back by another.
  pub IsSpace-keep :
      (s' : Vm) (own' : Owner)
      → SameTables own s.mem s'.mem
      → ((f : ℕ) → own' f == own f || (ltb (own f) 2 && ltb (own' f) 2) ≡ true)
      → ((f : ℕ) → own' f == 1 || in_range kernel_end f ≡ true)
      → is_spare own' s'.kmem.freelist ≡ true
      → ((f : ℕ) → not (own' f == 0) || on_list f s'.kmem.freelist ≡ true)
      → IsSpace kernel_end s' d own'
  IsSpace-keep s' own' h o r f l = record {
    above = ok.above;
    dir = let e = ok.dir in let q = o d in ground arith;
    tables = λ i k.
        let e = ok.tables i k in
        let q = o (pte_frame (pte_at s.mem d i)) in
        let same = directory-keep s'.mem i h in rw same (ground arith);
    pages = λ n k.
        let e = ok.pages n k in
        let q = o (pte_frame (entry s.mem d n)) in
        let same = entry-keep s'.mem n h (ground arith) in rw same (ground arith);
    mapped = λ g n k.
        let q = o g in
        let e = ok.mapped g n (ground arith) in
        let same = entry-keep s'.mem n h (ground arith) in rw same e;
    range = r;
    spare = f;
    listed = l;
  }

  -- Frames of different owners differ.
  pub Owner-differ : (x y : ℕ) → (own x == own y) ≡ false → (x == y) ≡ false
  Owner-differ x y h = elim (Bool-cases (x == y)) [
    | inl at ↦ let q : x ≡ y = ground arith in let e = ap own q in ground arith
    | inr off ↦ off
  ]

  -- A write to the entry of page `n`.
  pub entry-set_pte :
      (n n' w : ℕ)
      → n < 2 ^ 20
      → n' < 2 ^ 20
      → w < 2 ^ 32
      → is_present (pte_at s.mem d (n / 1024)) ≡ true
      → entry (set_pte s.mem (pte_frame (pte_at s.mem d (n / 1024))) (n % 1024) w) d n'
        ≡ (if n == n' then w else entry s.mem d n')
  unfolding entry
  entry-set_pte n n' w h h' hw p =
      rw same (elim (Bool-cases (is_present (pte_at s.mem d (n' / 1024)))) [
        | inl there ↦
            let o' = table_is_table (n' / 1024) (omega arith) there in
            rw
              (
                there,
                pte_at-set_pte s.mem t (n % 1024) w (pte_frame (pte_at s.mem d (n' / 1024)))
                    (n' % 1024) hw,
              )
              (elim (Bool-cases (n / 1024 == n' / 1024)) [
                | inl at ↦
                    let q : n / 1024 ≡ n' / 1024 = ground arith in
                    let e : (t == pte_frame (pte_at s.mem d (n' / 1024))) ≡ true =
                      ap (λ x. t == pte_frame (pte_at s.mem d x)) (sym q) ∙ self t in
                    let r : (n % 1024 == n' % 1024) ≡ (n == n') = ground arith in rw (e, r) refl
                | inr off ↦
                    let e : (t == pte_frame (pte_at s.mem d (n' / 1024))) ≡ false =
                      let a = o in
                      Owner-differ t (pte_frame (pte_at s.mem d (n' / 1024))) (ground arith) in
                    let r : (n == n') ≡ false = ground arith in rw (e, r) refl
              ])
        | inr out ↦
            let r : (n == n') ≡ false = elim (Bool-cases (n == n')) [
              | inl at ↦
                  let q : n ≡ n' = ground arith in
                  let z : is_present (pte_at s.mem d (n / 1024)) ≡ false =
                    ap (λ x. is_present (pte_at s.mem d (x / 1024))) q ∙ out in
                  ground arith
              | inr off ↦ off
            ] in
            rw (out, r) refl
      ])
    where
      t : ℕ
      t = pte_frame (pte_at s.mem d (n / 1024))

      o : own t ≡ 3 + n / 1024
      o = table_is_table (n / 1024) (omega arith) p

      self : (x : ℕ) → (x == x) ≡ true
      self x = ground arith

      same : pte_at (set_pte s.mem t (n % 1024) w) d (n' / 1024) ≡ pte_at s.mem d (n' / 1024)
      same = pte_at-same s.mem (set_pte s.mem t (n % 1024) w) d (n' / 1024) (λ j.
          set_pte-other s.mem t (n % 1024) w d j
            (let e = ok.dir in let a = o in Owner-differ t d (ground arith)))
