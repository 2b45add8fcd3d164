-- ===== src/Vm/Space/Grown.antt =====
-- An address space that has got the pages of a range.
use os_project2_test.Prelude.{
  ℕ, ◌+◌, ◌*◌, ◌%◌, ◌-◌, ◌^◌, ◌≡◌, ◌≤◌, ◌<◌, refl, sym, ap, ◌∙◌, true, false, ◌&&◌, ◌||◌, List, ◌∷◌,
  ◌==◌, ltb, leb, if◌then◌else◌, arith, Bool-cases, inl, inr,
}
use os_project2_test.Fs.{Blocks}
use os_project2_test.Vm.{Vm, is_present, pte_frame, frame, fill_frame, new_pte}
use os_project2_test.Vm.Table.{entry, Owner, give, is_table, in_range, IsSpace}
use os_project2_test.Vm.Table.Owned.{SameTables, entry-keep, Owner-differ}
use os_project2_test.Vm.Table.Moves.{
  fill_frame-other, Spare-frame, IsSpace-take, IsSpace-free, freed,
}
use os_project2_test.Vm.Page.{Mapped}
use os_project2_test.Vm.Space.Shrunk.{within, Shrunk}

-- The pages of the range are mapped for the user, to read and to write, to different frames that were
-- free and that are clear now. Other frames may have become tables; all else is as before.
pub record Grown (kernel_end : ℕ) (s : Vm) (d : ℕ) (own : Owner) (lo hi : ℕ) (s' : Vm)
    (own' : Owner) : Type 0 where
  pub space : IsSpace kernel_end s' d own'
  pub fresh :
      (n : ℕ)
      → n < 2 ^ 19
      → within lo hi n ≡ true
      → entry s'.mem d n % 8 == 7 && own (pte_frame (entry s'.mem d n)) == 0 ≡ true
  pub clear :
      (n j : ℕ)
      → n < 2 ^ 19
      → within lo hi n ≡ true
      → j < 4096
      → s'.mem (pte_frame (entry s'.mem d n)) j ≡ 0
  pub kept : (n : ℕ) → n < 2 ^ 20 → within lo hi n ≡ false → entry s'.mem d n ≡ entry s.mem d n
  pub bytes : (g j : ℕ) → leb 2000 (own g) ≡ true → s'.mem g j ≡ s.mem g j
  pub owners :
      (g : ℕ)
      → own' g == own g
          || (own g == 0 && (is_table (own' g) || within (2000 + lo) (2000 + hi) (own' g)))
        ≡ true

-- What was mapped is as before and nothing more is mapped; free frames may have become tables.
pub record Unmoved (kernel_end : ℕ) (s : Vm) (d : ℕ) (own : Owner) (s' : Vm) (own' : Owner)
    : Type 0 where
  pub space : IsSpace kernel_end s' d own'
  pub present : (n : ℕ) → n < 2 ^ 19 → is_present (entry s'.mem d n) ≡ is_present (entry s.mem d n)
  pub entries :
      (n : ℕ)
      → n < 2 ^ 19
      → is_present (entry s.mem d n) ≡ true
      → entry s'.mem d n ≡ entry s.mem d n
  pub bytes : (g j : ℕ) → leb 2000 (own g) ≡ true → s'.mem g j ≡ s.mem g j
  pub owners : (g : ℕ) → own' g == own g || (own g == 0 && is_table (own' g)) ≡ true

pub Grown-none :
    (kernel_end : ℕ) (s : Vm) (d : ℕ) (own : Owner) (lo : ℕ)
    → IsSpace kernel_end s d own
    → Grown kernel_end s d own lo lo s own
Grown-none kernel_end s d own lo ok = record {
  space = ok;
  fresh = λ n h w. ground arith;
  clear = λ n j h w k. ground arith;
  kept = λ n h w. refl;
  bytes = λ g j o. refl;
  owners = λ g. ground arith;
}

-- The pages that were got are given back.
pub Grown-Shrunk :
    (kernel_end : ℕ) (s : Vm) (d : ℕ) (own : Owner) (lo mid hi : ℕ) (s₁ s₂ : Vm) (own₁ own₂ : Owner)
    → mid ≤ hi
    → ((n : ℕ) → n < 2 ^ 19 → within lo hi n ≡ true → is_present (entry s.mem d n) ≡ false)
    → ((g n : ℕ) → own g ≡ 2000 + n → ltb n (2 ^ 19) && is_present (entry s.mem d n) ≡ true)
    → Grown kernel_end s d own lo mid s₁ own₁
    → Shrunk kernel_end s₁ d own₁ lo hi s₂ own₂
    → Unmoved kernel_end s d own s₂ own₂
Grown-Shrunk kernel_end s d own lo mid hi s₁ s₂ own₁ own₂ le out back g r = record {
  space = r.space;
  present = λ n h. elim (Bool-cases (within lo hi n)) [
    | inl w ↦ r.gone n h w ∙ sym (out n h w)
    | inr w ↦ ap is_present (r.kept n (omega arith) w ∙ g.kept n (omega arith) (ground arith))
  ];
  entries = λ n h p. elim (Bool-cases (within lo hi n)) [
    | inl w ↦ let o = out n h w in ground arith
    | inr w ↦ r.kept n (omega arith) w ∙ g.kept n (omega arith) (ground arith)
  ];
  bytes = λ f j o.
      let e = g.owners f in
      let w = outside f in r.bytes f j (ground arith) (ground arith) (ground arith) ∙ g.bytes f j o;
  owners = λ f. let e = g.owners f in let e' = r.owners f in let w = outside f in ground arith;
}
  where
    outside : (f : ℕ) → within (2000 + lo) (2000 + hi) (own f) ≡ false
    outside f = elim (Bool-cases (within (2000 + lo) (2000 + hi) (own f))) [
      | inl w ↦
          let b = back f (own f - 2000) (ground arith) in
          let o = out (own f - 2000) (ground arith) (ground arith) in ground arith
      | inr w ↦ w
    ]

-- The page that kalloc gave, held and with other bytes in it.
abbrev pub taken : Vm → ℕ → List ℕ → Blocks → Vm
taken s v rest m = record { mem = m; kmem = record s.kmem { freelist = rest } }

module _ (kernel_end : ℕ) (s : Vm) (d : ℕ) (own : Owner) (ok : IsSpace kernel_end s d own) where
  -- Only the page's own bytes change.
  abbrev pub OnlyPage : ℕ → Blocks → Type 0
  OnlyPage v m = (f j : ℕ) → (frame v == f) ≡ false → m f j ≡ s.mem f j

  pub taken-SameTables :
      (v : ℕ) (rest : List ℕ) (m : Blocks)
      → s.kmem.freelist ≡ v ∷ rest
      → OnlyPage v m
      → SameTables own s.mem m
  taken-SameTables v rest m e h f j t =
      let (free, r, at) = Spare-frame kernel_end s d own ok v rest e in
      h f j (Owner-differ kernel_end s d own ok (frame v) f (ground arith))

  pub IsSpace-taken :
      (v : ℕ) (rest : List ℕ) (m : Blocks)
      → s.kmem.freelist ≡ v ∷ rest
      → OnlyPage v m
      → IsSpace kernel_end (taken s v rest m) d (give own (frame v) 1)
  IsSpace-taken v rest m e h =
      IsSpace-take kernel_end s d own ok v rest (record s.kmem { freelist = rest }) e refl m
        (taken-SameTables v rest m e h)

  -- The page that kalloc gave is given back, the state being as before but for new tables.
  pub taken-entry :
      (v n : ℕ) (rest : List ℕ) (m : Blocks)
      → s.kmem.freelist ≡ v ∷ rest
      → OnlyPage v m
      → n < 2 ^ 20
      → entry m d n ≡ entry s.mem d n
  taken-entry v n rest m e h k =
      entry-keep kernel_end s d own ok m n (taken-SameTables v rest m e h) k

-- A page that was held while pages were freed is freed as well.
pub Shrunk-held :
    (kernel_end : ℕ) (s : Vm) (d : ℕ) (own : Owner) (lo hi v : ℕ) (rest : List ℕ) (m : Blocks)
    (s₂ : Vm) (own₂ : Owner) (ok : IsSpace kernel_end s d own)
    → s.kmem.freelist ≡ v ∷ rest
    → OnlyPage kernel_end s d own ok v m
    → Shrunk kernel_end (taken s v rest m) d (give own (frame v) 1) lo hi s₂ own₂
    → Shrunk kernel_end s d own lo hi
        (freed s₂ (frame v) (fill_frame s₂.mem (frame v) 1))
        (give own₂ (frame v) 0)
Shrunk-held kernel_end s d own lo hi v rest m s₂ own₂ ok e h w = record {
  space =
      IsSpace-free kernel_end s₂ d own₂ w.space (frame v) held r (fill_frame s₂.mem (frame v) 1)
        junk;
  gone = λ n k o. ap is_present (after n (omega arith)) ∙ w.gone n k o;
  kept = λ n k o. after n k ∙ w.kept n k o ∙ taken-entry kernel_end s d own ok v n rest m e h k;
  bytes = λ g j t z o.
      let off = apart g z in
      fill_frame-other s₂.mem (frame v) 1 g j off
      ∙ w.bytes g j (ground arith) (ground arith) (ground arith)
      ∙ h g j off;
  owners = λ g.
      let q = w.owners g in
      elim (Bool-cases (frame v == g)) [
        | inl same ↦
            let p : frame v ≡ g = ground arith in
            let z : own g ≡ 0 = ap own (sym p) ∙ free in ground arith
        | inr off ↦ ground arith
      ];
}
  where
    free : own (frame v) ≡ 0
    free = let (a, b, c) = Spare-frame kernel_end s d own ok v rest e in a

    r : in_range kernel_end (frame v) ≡ true
    r = let (a, b, c) = Spare-frame kernel_end s d own ok v rest e in b

    apart : (g : ℕ) → (own g == 0) ≡ false → (frame v == g) ≡ false
    apart g z = let f = free in Owner-differ kernel_end s d own ok (frame v) g (ground arith)

    held : own₂ (frame v) ≡ 1
    held = let q = w.owners (frame v) in ground arith

    junk : SameTables own₂ s₂.mem (fill_frame s₂.mem (frame v) 1)
    junk f j t =
        let a = held in
        fill_frame-other s₂.mem (frame v) 1 f j
          (Owner-differ kernel_end s₂ d own₂ w.space (frame v) f (ground arith))

    after : (n : ℕ) → n < 2 ^ 20 → entry (fill_frame s₂.mem (frame v) 1) d n ≡ entry s₂.mem d n
    after n k = entry-keep kernel_end s₂ d own₂ w.space (fill_frame s₂.mem (frame v) 1) n junk k

pub Grown-page :
    (kernel_end : ℕ) (s₀ : Vm) (d : ℕ) (own₀ : Owner) (lo k : ℕ) (s : Vm) (own : Owner) (v : ℕ)
    (rest : List ℕ) (s' : Vm) (own' : Owner)
    → lo ≤ k
    → k < 2 ^ 19
    → Grown kernel_end s₀ d own₀ lo k s own
    → s.kmem.freelist ≡ v ∷ rest
    → Mapped kernel_end
        (taken s v rest (fill_frame s.mem (frame v) 0))
        d
        (give own (frame v) 1)
        k
        (frame v)
        (new_pte (frame v * 4096) 6)
        s'
        own'
    → Grown kernel_end s₀ d own₀ lo (k + 1) s' own'
Grown-page kernel_end s₀ d own₀ lo k s own v rest s' own' le b g e m = record {
  space = m.space;
  fresh = λ n h w. rw (at n (omega arith)) (elim (Bool-cases (k == n)) [
    | inl new ↦
        let top : pte_frame (new_pte (frame v * 4096) 6) ≡ frame v = omega arith in
        let flags : new_pte (frame v * 4096) 6 % 8 ≡ 7 = omega arith in
        let o = g.owners (frame v) in let z = free in rw (new, top, flags) (ground arith)
    | inr old ↦ rw old (g.fresh n h (ground arith))
  ]);
  clear = λ n j h w i. rw (at n (omega arith)) (elim (Bool-cases (k == n)) [
    | inl new ↦
        let top : pte_frame (new_pte (frame v * 4096) 6) ≡ frame v = omega arith in
        let o = m.owners (frame v) in rw (new, top) (m.bytes (frame v) j (ground arith) ∙ wiped j i)
    | inr old ↦
        let p : within lo k n ≡ true = ground arith in
        let q = g.fresh n h p in
        let a = g.space.pages n h in
        let o = m.owners (pte_frame (entry s.mem d n)) in
        let off = differ (pte_frame (entry s.mem d n)) (ground arith) in
        rw old (
          m.bytes (pte_frame (entry s.mem d n)) j (ground arith)
          ∙ fill_frame-other s.mem (frame v) 0 (pte_frame (entry s.mem d n)) j off
          ∙ g.clear n j h p i)
  ]);
  kept = λ n h w.
      at n h
      ∙ (let q : (k == n) ≡ false = ground arith in
          ap (λ c. if c then new_pte (frame v * 4096) 6 else entry s.mem d n) q
          ∙ g.kept n h (ground arith));
  bytes = λ f j o.
      let a = g.owners f in
      let off = differ f (ground arith) in
      let c = m.owners f in
      m.bytes f j (ground arith) ∙ fill_frame-other s.mem (frame v) 0 f j off ∙ g.bytes f j o;
  owners = λ f.
      let a = g.owners f in
      let c = m.owners f in
      elim (Bool-cases (frame v == f)) [
        | inl same ↦
            let q : frame v ≡ f = ground arith in
            let z : own f ≡ 0 = ap own (sym q) ∙ free in ground arith
        | inr off ↦ ground arith
      ];
}
  where
    free : own (frame v) ≡ 0
    free = let (a, b, c) = Spare-frame kernel_end s d own g.space v rest e in a

    differ : (f : ℕ) → (own f == 0) ≡ false → (frame v == f) ≡ false
    differ f h = let z = free in Owner-differ kernel_end s d own g.space (frame v) f (ground arith)

    wiped : (j : ℕ) → j < 4096 → fill_frame s.mem (frame v) 0 (frame v) j ≡ 0
    wiped j h =
        let self : (frame v == frame v && ltb j 4096) ≡ true = ground arith in
        ap (λ c. if c then 0 else s.mem (frame v) j) self

    at :
        (n : ℕ)
        → n < 2 ^ 20
        → entry s'.mem d n ≡ (if k == n then new_pte (frame v * 4096) 6 else entry s.mem d n)
    at n h =
        m.entries n h
        ∙ ap (λ x. if k == n then new_pte (frame v * 4096) 6 else x)
            (taken-entry kernel_end s d own g.space v n rest (fill_frame s.mem (frame v) 0) e
              (λ f j. fill_frame-other s.mem (frame v) 0 f j) h)
