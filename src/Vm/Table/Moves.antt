-- ===== src/Vm/Table/Moves.antt =====
-- Frames that kalloc and kfree move, and a table that is added.
use os_project2_test.Prelude.{
  ℕ, ◌+◌, ◌*◌, ◌/◌, ◌%◌, ◌^◌, ◌≡◌, ◌<◌, refl, sym, ap, ◌∙◌, true, false, not, ◌&&◌, ◌||◌, some,
  List, ◌∷◌, ◌==◌, if◌then◌else◌, arith, Bool-cases, inl, inr,
}
use os_project2_test.Kalloc.{kernbase, Kmem, kfree, is_bad}
use os_project2_test.Fs.{Blocks}
use os_project2_test.Vm.{
  Vm, pte_at, set_pte, is_present, pte_frame, frame, p2v, fill_frame, free_page,
}
use os_project2_test.Vm.Table.{
  pte_at-same, set_pte-other, pte_at-set_pte, entry, Owner, give, in_range, is_spare, on_list,
  IsSpace, is_spare-same,
}
use os_project2_test.Vm.Table.Owned.{SameTables, IsSpace-keep, Owner-differ}

pub frame-p2v :
    (kernel_end f : ℕ) → kernbase < kernel_end → in_range kernel_end f ≡ true → frame (p2v f) ≡ f
frame-p2v kernel_end f h r = ground arith

kfree-in_range :
    (kernel_end : ℕ) (k : Kmem) (f : ℕ)
    → kernbase < kernel_end
    → in_range kernel_end f ≡ true
    → kfree kernel_end k (p2v f) ≡ some (record k { freelist = p2v f ∷ k.freelist })
unfolding kfree
kfree-in_range kernel_end k f h r =
    let e : is_bad kernel_end (p2v f) ≡ false = ground arith in rw e refl

pub free_page-in_range :
    (kernel_end : ℕ) (s : Vm) (f : ℕ)
    → kernbase < kernel_end
    → in_range kernel_end f ≡ true
    → free_page kernel_end s (p2v f)
      ≡ some (record {
        mem = fill_frame s.mem f 1;
        kmem = record s.kmem { freelist = p2v f ∷ s.kmem.freelist };
      })
unfolding free_page
free_page-in_range kernel_end s f h r =
    let e : kfree kernel_end s.kmem (p2v f)
        ≡ some (record s.kmem { freelist = p2v f ∷ s.kmem.freelist }) =
      kfree-in_range kernel_end s.kmem f h r in
    rw (e, frame-p2v kernel_end f h r, free_page) refl

pub set_pte-same :
    (m m' : Blocks) (t i e f j : ℕ) → m' f j ≡ m f j → set_pte m' t i e f j ≡ set_pte m t i e f j
unfolding set_pte
set_pte-same m m' t i e f j h = rw h refl

pub fill_frame-other : (m : Blocks) (f c g j : ℕ) → (f == g) ≡ false → fill_frame m f c g j ≡ m g j
fill_frame-other m f c g j h = rw h refl

-- The state after kfree of frame `f`, with memory `m`.
abbrev pub freed : Vm → ℕ → Blocks → Vm
freed s f m = record { mem = m; kmem = record s.kmem { freelist = p2v f ∷ s.kmem.freelist } }

module _ (kernel_end : ℕ) (s : Vm) (d : ℕ) (own : Owner) (ok : IsSpace kernel_end s d own) where
  spare-free :
      (f : ℕ)
      → (own f == 0) ≡ false
      → in_range kernel_end f ≡ true
      → is_spare (give own f 0) (p2v f ∷ s.kmem.freelist) ≡ true
  unfolding is_spare
  spare-free f o r =
      let p : (p2v f == f * 4096 + kernbase) ≡ true = let a = ok.above in ground arith in
      let self : (f == f) ≡ true = ground arith in
      let rest : is_spare (give (give own f 0) f 1) s.kmem.freelist ≡ true =
        is_spare-same own (give (give own f 0) f 1) s.kmem.freelist
          (λ g. let q = other g in ground arith)
        ∙ ok.spare in
      rw (frame-p2v kernel_end f ok.above r, p, self) rest
    where
      other : (g : ℕ) → not (f == g) || own f == own g ≡ true
      other g = elim (Bool-cases (f == g)) [
        | inl at ↦ let q : f ≡ g = ground arith in let e = ap own q in ground arith
        | inr off ↦ ground arith
      ]

  listed-free :
      (f : ℕ)
      → in_range kernel_end f ≡ true
      → (g : ℕ) → not (give own f 0 g == 0) || on_list g (p2v f ∷ s.kmem.freelist) ≡ true
  unfolding on_list
  listed-free f r g = elim (Bool-cases (f == g)) [
    | inl at ↦
        let q : f ≡ g = ground arith in
        let a = ok.above in
        let e : (p2v f == g * 4096 + kernbase) ≡ true = ground arith in rw e (ground arith)
    | inr off ↦ let l = ok.listed g in ground arith
  ]

  -- A frame that another held is freed.
  pub IsSpace-free :
      (f : ℕ)
      → own f ≡ 1
      → in_range kernel_end f ≡ true
      → (m' : Blocks) → SameTables own s.mem m'
      → IsSpace kernel_end (freed s f m') d (give own f 0)
  IsSpace-free f o r m' h =
      IsSpace-keep kernel_end s d own ok (freed s f m') (give own f 0) h
        (λ g. elim (Bool-cases (f == g)) [
          | inl at ↦
              let q : f ≡ g = ground arith in let e : own g ≡ 1 = ap own (sym q) ∙ o in ground arith
          | inr off ↦ ground arith
        ])
        (λ g.
          let e = ok.range g in
          elim (Bool-cases (f == g)) [
            | inl at ↦
                let q : f ≡ g = ground arith in
                let e : in_range kernel_end g ≡ true = ap (in_range kernel_end) (sym q) ∙ r in
                ground arith
            | inr off ↦ ground arith
          ])
        (spare-free f (ground arith) r) (listed-free f r)

  -- The page that kalloc gives, whose frame may be written at once.
  pub IsSpace-take :
      (v : ℕ) (rest : List ℕ) (k : Kmem)
      → s.kmem.freelist ≡ v ∷ rest
      → k.freelist ≡ rest
      → (m' : Blocks) → SameTables own s.mem m'
      → IsSpace kernel_end (record { mem = m'; kmem = k }) d (give own (frame v) 1)
  unfolding is_spare on_list
  IsSpace-take v rest k e e' m' h =
      let sp : is_spare own (v ∷ rest) ≡ true = ap (is_spare own) (sym e) ∙ ok.spare in
      IsSpace-keep kernel_end s d own ok (record { mem = m'; kmem = k }) (give own (frame v) 1) h
        (λ g. elim (Bool-cases (frame v == g)) [
          | inl at ↦
              let q : frame v ≡ g = ground arith in
              let a : own (frame v) ≡ own g = ap own q in ground arith
          | inr off ↦ ground arith
        ])
        (λ g. let r = ok.range g in ground arith) (rw e' (ground arith))
        (λ g.
          let l : not (own g == 0) || on_list g (v ∷ rest) ≡ true =
            ap (λ k. not (own g == 0) || on_list g k) (sym e) ∙ ok.listed g in
          rw e' (elim (Bool-cases (v == g * 4096 + kernbase)) [
            | inl at ↦ let same : frame v ≡ g = ground arith in ground arith
            | inr off ↦ ground arith
          ]))

  pub Spare-frame :
      (v : ℕ) (rest : List ℕ)
      → s.kmem.freelist ≡ v ∷ rest
      → (own (frame v) ≡ 0)
        × (in_range kernel_end (frame v) ≡ true)
        × (v ≡ frame v * 4096 + kernbase)
  unfolding is_spare
  Spare-frame v rest e =
      let sp : is_spare own (v ∷ rest) ≡ true = ap (is_spare own) (sym e) ∙ ok.spare in
      let r = ok.range (frame v) in (ground arith, ground arith, ground arith)

  -- A frame that another held, all clear, becomes a table.
  pub IsSpace-table :
      (t i : ℕ)
      → i < 1024
      → own t ≡ 1
      → in_range kernel_end t ≡ true
      → ((j : ℕ) → j < 1024 → pte_at s.mem t j ≡ 0)
      → is_present (pte_at s.mem d i) ≡ false
      → IsSpace kernel_end
          (record s { mem = set_pte s.mem d i (t * 4096 + 7) })
          d
          (give own t (3 + i))
        × ((n : ℕ) → n < 2 ^ 20 → entry (set_pte s.mem d i (t * 4096 + 7)) d n ≡ entry s.mem d n)
  unfolding entry
  IsSpace-table t i h o r z p = (
    record {
      above = ok.above;
      dir = let e = ok.dir in let k = other d in ground arith;
      tables = λ i' k.
          let e = ok.tables i' k in
          let q = other (pte_frame (pte_at s.mem d i')) in
          rw (pde i') (elim (Bool-cases (i == i')) [
            | inl at ↦ rw (at, top) (ground arith)
            | inr off ↦ rw off (ground arith)
          ]);
      pages = λ n k.
          let e = ok.pages n k in
          let q = other (pte_frame (entry s.mem d n)) in rw (same n (omega arith)) (ground arith);
      mapped = λ g n k.
          let q = other g in let e = ok.mapped g n (ground arith) in rw (same n (ground arith)) e;
      range = λ g. let e = ok.range g in ground arith;
      spare =
          is_spare-same own (give own t (3 + i)) s.kmem.freelist
            (λ g. let e = other g in ground arith)
          ∙ ok.spare;
      listed = λ g. let l = ok.listed g in let e = other g in ground arith;
    },
    same,
  )
    where
      top : pte_frame (t * 4096 + 7) ≡ t
      top = omega arith

      word : t * 4096 + 7 < 2 ^ 32
      word = let e = r in ground arith

      other : (g : ℕ) → not (t == g) || own g == 1 ≡ true
      other g = elim (Bool-cases (t == g)) [
        | inl at ↦
            let q : t ≡ g = ground arith in let e : own g ≡ 1 = ap own (sym q) ∙ o in ground arith
        | inr off ↦ ground arith
      ]

      pde :
          (i' : ℕ)
          → pte_at (set_pte s.mem d i (t * 4096 + 7)) d i'
            ≡ (if i == i' then t * 4096 + 7 else pte_at s.mem d i')
      pde i' =
          let self : (d == d) ≡ true = ground arith in
          pte_at-set_pte s.mem d i (t * 4096 + 7) d i' word
          ∙ ap (λ b. if b && i == i' then t * 4096 + 7 else pte_at s.mem d i') self

      off_dir :
          (g j : ℕ) → (own d == own g) ≡ false → set_pte s.mem d i (t * 4096 + 7) g j ≡ s.mem g j
      off_dir g j h =
          set_pte-other s.mem d i (t * 4096 + 7) g j (Owner-differ kernel_end s d own ok d g h)

      same : (n : ℕ) → n < 2 ^ 20 → entry (set_pte s.mem d i (t * 4096 + 7)) d n ≡ entry s.mem d n
      same n k = rw (pde (n / 1024)) (elim (Bool-cases (i == n / 1024)) [
        | inl at ↦
            let q : i ≡ n / 1024 = ground arith in
            let out : is_present (pte_at s.mem d (n / 1024)) ≡ false =
              ap (λ x. is_present (pte_at s.mem d x)) (sym q) ∙ p in
            let e = ok.dir in
            let odd : is_present (t * 4096 + 7) ≡ true = ground arith in
            let zero : pte_at (set_pte s.mem d i (t * 4096 + 7)) t (n % 1024) ≡ 0 =
              pte_at-same s.mem (set_pte s.mem d i (t * 4096 + 7)) t (n % 1024)
                (λ j. off_dir t j (ground arith))
              ∙ z (n % 1024) (omega arith) in
            rw (at, out, odd, top) zero
        | inr off ↦ rw off (elim (Bool-cases (is_present (pte_at s.mem d (n / 1024)))) [
          | inl there ↦
              let e = ok.dir in
              let e' = ok.tables (n / 1024) (omega arith) in
              rw there (
                pte_at-same s.mem (set_pte s.mem d i (t * 4096 + 7))
                  (pte_frame (pte_at s.mem d (n / 1024))) (n % 1024)
                  (λ j. off_dir (pte_frame (pte_at s.mem d (n / 1024))) j (ground arith)))
          | inr out ↦ rw out refl
        ])
      ])
