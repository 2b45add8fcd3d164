-- ===== src/Vm/Table/Change.antt =====
-- A page that is mapped or unmapped, a table that is added, and pages that kalloc and kfree move.
use os_project2_test.Prelude.{
  ℕ, ◌+◌, ◌/◌, ◌%◌, ◌^◌, ◌≡◌, ◌<◌, sym, ap, ◌∙◌, true, false, not, ◌||◌, ◌==◌, arith, Bool-cases,
  inl, inr,
}
use os_project2_test.Vm.{Vm, pte_at, set_pte, is_present, pte_frame}
use os_project2_test.Vm.Table.{
  pte_at-same, set_pte-other, entry, Owner, give, in_range, IsSpace, is_spare-same,
}
use os_project2_test.Vm.Table.Owned.{entry-set_pte, Owner-differ}

-- The state after the entry of page `n` is written.
abbrev pub write_entry : Vm → ℕ → ℕ → ℕ → Vm
write_entry s d n w = record s {
  mem = set_pte s.mem (pte_frame (pte_at s.mem d (n / 1024))) (n % 1024) w;
}

module _ (kernel_end : ℕ) (s : Vm) (d : ℕ) (own : Owner) (ok : IsSpace kernel_end s d own) where
  directory-write :
      (n w i : ℕ)
      → n < 2 ^ 20
      → is_present (pte_at s.mem d (n / 1024)) ≡ true
      → pte_at (write_entry s d n w).mem d i ≡ pte_at s.mem d i
  directory-write n w i h p =
      let o = ok.tables (n / 1024) (omega arith) in
      let e = ok.dir in
      pte_at-same s.mem (write_entry s d n w).mem d i (λ j.
        set_pte-other s.mem t (n % 1024) w d j
          (Owner-differ kernel_end s d own ok t d (ground arith)))
    where
      t : ℕ
      t = pte_frame (pte_at s.mem d (n / 1024))

  -- Frame `f`, which another held, becomes page `n`.
  pub IsSpace-map :
      (n f w : ℕ)
      → n < 2 ^ 19
      → w < 2 ^ 32
      → is_present w ≡ true
      → pte_frame w ≡ f
      → own f ≡ 1
      → in_range kernel_end f ≡ true
      → is_present (pte_at s.mem d (n / 1024)) ≡ true
      → is_present (entry s.mem d n) ≡ false
      → IsSpace kernel_end (write_entry s d n w) d (give own f (2000 + n))
  IsSpace-map n f w h hw hp hf o r p out = record {
    above = ok.above;
    dir = let e = ok.dir in let k = other d in ground arith;
    tables = λ i k.
        let e = ok.tables i k in
        let q = other (pte_frame (pte_at s.mem d i)) in
        rw (directory-write n w i (omega arith) p) (ground arith);
    pages = λ n' k.
        let e = ok.pages n' k in
        let q = other (pte_frame (entry s.mem d n')) in
        rw (entry-set_pte kernel_end s d own ok n n' w (omega arith) (omega arith) hw p)
          (elim (Bool-cases (n == n')) [
            | inl at ↦ rw (at, hf) (ground arith)
            | inr off ↦ rw off (ground arith)
          ]);
    mapped = λ g n' k. elim (Bool-cases (f == g)) [
      | inl at ↦
          let q : (n == n') ≡ true = ground arith in
          rw
            (
              entry-set_pte kernel_end s d own ok n n' w (omega arith) (ground arith) hw p,
              q,
              hp,
              hf,
              at,
            )
            (ground arith)
      | inr off ↦
          let e = ok.mapped g n' (ground arith) in
          let q : (n == n') ≡ false = apart n' (ground arith) in
          rw (entry-set_pte kernel_end s d own ok n n' w (omega arith) (ground arith) hw p, q) e
    ];
    range = λ g. let e = ok.range g in ground arith;
    spare =
        is_spare-same own (give own f (2000 + n)) s.kmem.freelist
          (λ g. let e = other g in ground arith)
        ∙ ok.spare;
    listed = λ g. let l = ok.listed g in let e = other g in ground arith;
  }
    where
      other : (g : ℕ) → not (f == g) || own g == 1 ≡ true
      other g = elim (Bool-cases (f == g)) [
        | inl at ↦
            let q : f ≡ g = ground arith in let e : own g ≡ 1 = ap own (sym q) ∙ o in ground arith
        | inr off ↦ ground arith
      ]

      apart : (n' : ℕ) → is_present (entry s.mem d n') ≡ true → (n == n') ≡ false
      apart n' there = elim (Bool-cases (n == n')) [
        | inl at ↦
            let q : n ≡ n' = ground arith in
            let e : is_present (entry s.mem d n') ≡ false =
              ap (λ x. is_present (entry s.mem d x)) (sym q) ∙ out in
            ground arith
        | inr off ↦ off
      ]

  -- Page `n` is mapped no longer; its frame is another's.
  pub IsSpace-unmap :
      (n f : ℕ)
      → own f ≡ 2000 + n
      → is_present (pte_at s.mem d (n / 1024)) ≡ true
      → IsSpace kernel_end (write_entry s d n 0) d (give own f 1)
  IsSpace-unmap n f o p = record {
    above = ok.above;
    dir = let e = ok.dir in let k = other d in ground arith;
    tables = λ i k.
        let e = ok.tables i k in
        let q = other (pte_frame (pte_at s.mem d i)) in
        let b = low in rw (directory-write n 0 i (omega arith) p) (ground arith);
    pages = λ n' k.
        let e = ok.pages n' k in
        let q = other (pte_frame (entry s.mem d n')) in
        let b = low in
        rw (entry-set_pte kernel_end s d own ok n n' 0 (omega arith) (omega arith) (omega arith) p)
          (elim (Bool-cases (n == n')) [
            | inl at ↦ rw at (ground arith)
            | inr off ↦ rw off (ground arith)
          ]);
    mapped = λ g n' k.
        let e = ok.mapped g n' (ground arith) in
        let q : (n == n') ≡ false = single g n' (ground arith) (ground arith) in
        let b = low in
        rw
          (
            entry-set_pte kernel_end s d own ok n n' 0 (omega arith) (ground arith) (omega arith) p,
            q,
          )
          e;
    range = λ g. let e = ok.range g in ground arith;
    spare =
        is_spare-same own (give own f 1) s.kmem.freelist (λ g. let e = other g in ground arith)
        ∙ ok.spare;
    listed = λ g. let l = ok.listed g in let e = other g in ground arith;
  }
    where
      low : n < 2 ^ 19
      low = let e = ok.mapped f n o in ground arith

      other : (g : ℕ) → not (f == g) || own g == 2000 + n ≡ true
      other g = elim (Bool-cases (f == g)) [
        | inl at ↦
            let q : f ≡ g = ground arith in
            let e : own g ≡ 2000 + n = ap own (sym q) ∙ o in ground arith
        | inr off ↦ ground arith
      ]

      single : (g n' : ℕ) → own g ≡ 2000 + n' → (f == g) ≡ false → (n == n') ≡ false
      single g n' k off = elim (Bool-cases (n == n')) [
        | inl at ↦
            let q : n' ≡ n = ground arith in
            let e = ok.mapped g n (k ∙ ap (λ x. 2000 + x) q) in
            let e' = ok.mapped f n o in ground arith
        | inr off ↦ off
      ]
