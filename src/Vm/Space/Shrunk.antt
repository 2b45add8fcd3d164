-- ===== src/Vm/Space/Shrunk.antt =====
-- An address space that has lost the pages of a range.
use os_project2_test.Prelude.{
  ℕ, ◌+◌, ◌/◌, ◌%◌, ◌-◌, ◌^◌, ◌≡◌, ◌≤◌, ◌<◌, refl, sym, ap, ◌∙◌, Bool, true, false, ◌&&◌, ◌==◌, ltb,
  leb, if◌then◌else◌, arith, Bool-cases, inl, inr,
}
use os_project2_test.Vm.{Vm, pte_at, set_pte, is_present, pte_frame, fill_frame}
use os_project2_test.Vm.Table.{set_pte-other, entry, Owner, give, is_table, in_range, IsSpace}
use os_project2_test.Vm.Table.Owned.{SameTables, entry-keep, entry-set_pte, Owner-differ}
use os_project2_test.Vm.Table.Change.{write_entry, IsSpace-unmap}
use os_project2_test.Vm.Table.Moves.{fill_frame-other, set_pte-same, freed, IsSpace-free}

-- Page `n` is among the pages from `lo` on and before `hi`.
abbrev pub within : ℕ → ℕ → ℕ → Bool
within lo hi n = leb lo n && ltb n hi

-- The pages of the range are mapped no longer and their frames are free; all else is as before.
pub record Shrunk (kernel_end : ℕ) (s : Vm) (d : ℕ) (own : Owner) (lo hi : ℕ) (s' : Vm)
    (own' : Owner) : Type 0 where
  pub space : IsSpace kernel_end s' d own'
  pub gone : (n : ℕ) → n < 2 ^ 19 → within lo hi n ≡ true → is_present (entry s'.mem d n) ≡ false
  pub kept : (n : ℕ) → n < 2 ^ 20 → within lo hi n ≡ false → entry s'.mem d n ≡ entry s.mem d n
  pub bytes :
      (g j : ℕ)
      → is_table (own g) ≡ false
      → (own g == 0) ≡ false
      → within (2000 + lo) (2000 + hi) (own g) ≡ false
      → s'.mem g j ≡ s.mem g j
  pub owners : (g : ℕ) → own' g ≡ (if within (2000 + lo) (2000 + hi) (own g) then 0 else own g)

pub Shrunk-skip :
    (kernel_end : ℕ) (s : Vm) (d : ℕ) (own : Owner) (lo hi : ℕ)
    → IsSpace kernel_end s d own
    → ((n : ℕ) → n < 2 ^ 19 → within lo hi n ≡ true → is_present (entry s.mem d n) ≡ false)
    → Shrunk kernel_end s d own lo hi s own
Shrunk-skip kernel_end s d own lo hi ok h = record {
  space = ok;
  gone = h;
  kept = λ n k o. refl;
  bytes = λ g j t z o. refl;
  owners = λ g. elim (Bool-cases (within (2000 + lo) (2000 + hi) (own g))) [
    | inl in_it ↦
        let e = ok.mapped g (own g - 2000) (ground arith) in
        let e' = h (own g - 2000) (ground arith) (ground arith) in ground arith
    | inr out ↦ ground arith
  ];
}

-- A range, and the rest after it.
pub Shrunk-join :
    (kernel_end : ℕ) (s : Vm) (d : ℕ) (own : Owner) (lo mid hi : ℕ) (s₁ s₂ : Vm) (own₁ own₂ : Owner)
    → lo ≤ mid
    → mid ≤ hi
    → Shrunk kernel_end s d own lo mid s₁ own₁
    → Shrunk kernel_end s₁ d own₁ mid hi s₂ own₂
    → Shrunk kernel_end s d own lo hi s₂ own₂
Shrunk-join kernel_end s d own lo mid hi s₁ s₂ own₁ own₂ a b p q = record {
  space = q.space;
  gone = λ n k o. elim (Bool-cases (within mid hi n)) [
    | inl late ↦ q.gone n k late
    | inr early ↦ ap is_present (q.kept n (omega arith) early) ∙ p.gone n k (ground arith)
  ];
  kept = λ n k o. q.kept n k (ground arith) ∙ p.kept n k (ground arith);
  bytes = λ g j t z o.
      let e = p.owners g in
      let r : (within (2000 + lo) (2000 + mid) (own g)) ≡ false = ground arith in
      q.bytes g j (ground arith) (ground arith) (ground arith) ∙ p.bytes g j t z r;
  owners = λ g. let e = p.owners g in let e' = q.owners g in ground arith;
}

module _ (kernel_end : ℕ) (s : Vm) (d : ℕ) (own : Owner) (ok : IsSpace kernel_end s d own) where
  -- Page `n` is freed, and then its entry is cleared.
  abbrev pub without_page : ℕ → Vm
  without_page n = freed s (pte_frame (entry s.mem d n)) (
      set_pte (fill_frame s.mem (pte_frame (entry s.mem d n)) 1)
        (pte_frame (pte_at s.mem d (n / 1024))) (n % 1024) 0)

  pub Shrunk-one :
      (n : ℕ)
      → n < 2 ^ 19
      → is_present (pte_at s.mem d (n / 1024)) ≡ true
      → is_present (entry s.mem d n) ≡ true
      → Shrunk kernel_end s d own n
          (n + 1)
          (without_page n)
          (give (give own (pte_frame (entry s.mem d n)) 1) (pte_frame (entry s.mem d n)) 0)
  Shrunk-one n h p there = record {
    space =
        IsSpace-free kernel_end (write_entry s d n 0) d (give own f 1) cleared f held r
          (without_page n).mem same_tables;
    gone = λ n' k o.
        let q : (n == n') ≡ true = ground arith in
        ap is_present (entry-is n' (omega arith) ∙ ap (λ b. if b then 0 else entry s.mem d n') q);
    kept = λ n' k o.
        let q : (n == n') ≡ false = ground arith in
        entry-is n' k ∙ ap (λ b. if b then 0 else entry s.mem d n') q;
    bytes = λ g j t z o.
        let e = ok.tables (n / 1024) (omega arith) in
        let e' = owned in
        let x = Owner-differ kernel_end s d own ok in
        set_pte-other (fill_frame s.mem f 1) (pte_frame (pte_at s.mem d (n / 1024))) (n % 1024) 0 g
          j (x (pte_frame (pte_at s.mem d (n / 1024))) g (ground arith))
        ∙ fill_frame-other s.mem f 1 g j (x f g (ground arith));
    owners = λ g. elim (Bool-cases (f == g)) [
      | inl at ↦
          let q : f ≡ g = ground arith in
          let o : own g ≡ 2000 + n = ap own (sym q) ∙ owned in ground arith
      | inr off ↦
          let m : (own g == 2000 + n) ≡ false = elim (Bool-cases (own g == 2000 + n)) [
            | inl is ↦ let e = ok.mapped g n (ground arith) in ground arith
            | inr not_it ↦ not_it
          ] in
          ground arith
    ];
  }
    where
      f : ℕ
      f = pte_frame (entry s.mem d n)

      owned : own f ≡ 2000 + n
      owned = let e = ok.pages n h in ground arith

      r : in_range kernel_end f ≡ true
      r = let e = ok.range f in let o = owned in ground arith

      held : give own f 1 f ≡ 1
      held = ground arith

      cleared : IsSpace kernel_end (write_entry s d n 0) d (give own f 1)
      cleared = IsSpace-unmap kernel_end s d own ok n f owned p

      same_tables : SameTables (give own f 1) (write_entry s d n 0).mem (without_page n).mem
      same_tables g j o =
          set_pte-same s.mem (fill_frame s.mem f 1) (pte_frame (pte_at s.mem d (n / 1024)))
            (n % 1024) 0 g j (fill_frame-other s.mem f 1 g j (ground arith))

      entry-is :
          (n' : ℕ)
          → n' < 2 ^ 20
          → entry (without_page n).mem d n' ≡ (if n == n' then 0 else entry s.mem d n')
      entry-is n' k =
          entry-keep kernel_end (write_entry s d n 0) d (give own f 1) cleared (without_page n).mem
            n' same_tables k
          ∙ entry-set_pte kernel_end s d own ok n n' 0 (omega arith) k (omega arith) p
