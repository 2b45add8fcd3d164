-- ===== src/Vm/Walk.antt =====
-- walkpgdir finds or makes the table of an address, and mappages maps a single page.
use os_project2_test.Prelude.{
  ℕ, ◌+◌, ◌*◌, ◌/◌, ◌%◌, ◌^◌, ◌≡◌, ◌<◌, refl, sym, ap, ◌∙◌, true, false, ◌&&◌, ◌||◌, Option, none,
  some, List, [], ◌∷◌, ◌==◌, ltb, if◌then◌else◌, arith, Bool-cases, inl, inr, ◌⊎◌, sub32,
}
use os_project2_test.Kalloc.{kernbase, Kmem, kalloc}
use os_project2_test.Fs.{Blocks}
use os_project2_test.Vm.{
  Vm, pdx, ptx, pte_at, set_pte, is_present, pte_frame, frame, fill_frame, find_pte, walkpgdir,
}
use os_project2_test.Vm.Table.{set_pte-other, pte_at-set_pte, entry, Owner, give, is_table, IsSpace}
use os_project2_test.Vm.Table.Owned.{SameTables, directory-keep, entry-keep, Owner-differ}
use os_project2_test.Vm.Table.Moves.{fill_frame-other, IsSpace-take, Spare-frame, IsSpace-table}

pub kalloc-cases :
    (k : Kmem)
    → ((k.freelist ≡ []) × (kalloc k ≡ (none, k)))
      ⊎ ((v : ℕ) × (rest : List ℕ) × (k.freelist ≡ v ∷ rest)
          × (kalloc k ≡ (some v, record k { freelist = rest })))
unfolding kalloc
kalloc-cases k = cases k.freelist refl
  where
    cases :
        (l : List ℕ)
        → k.freelist ≡ l
        → ((k.freelist ≡ []) × (kalloc k ≡ (none, k)))
          ⊎ ((v : ℕ) × (rest : List ℕ) × (k.freelist ≡ v ∷ rest)
              × (kalloc k ≡ (some v, record k { freelist = rest })))
    cases [] e = inl (e, rw e refl)
    cases (v ∷ rest) e = inr (v, rest, e, rw e refl)

find_pte-there :
    (m : Blocks) (d va : ℕ)
    → is_present (pte_at m d (pdx va)) ≡ true
    → find_pte m d va ≡ some (pte_frame (pte_at m d (pdx va)), ptx va)
unfolding find_pte
find_pte-there m d va h = rw h refl

find_pte-out :
    (m : Blocks) (d va : ℕ) → is_present (pte_at m d (pdx va)) ≡ false → find_pte m d va ≡ none
unfolding find_pte
find_pte-out m d va h = rw h refl

pub find_pte-page :
    (m : Blocks) (d n : ℕ)
    → n < 2 ^ 20
    → is_present (pte_at m d (n / 1024)) ≡ true
    → find_pte m d (n * 4096) ≡ some (pte_frame (pte_at m d (n / 1024)), n % 1024)
find_pte-page m d n h p =
    let i : pdx (n * 4096) ≡ n / 1024 = omega arith in
    let j : ptx (n * 4096) ≡ n % 1024 = omega arith in
    find_pte-there m d (n * 4096) (ap (λ x. is_present (pte_at m d x)) i ∙ p)
    ∙ ap (λ x. some (pte_frame (pte_at m d x), ptx (n * 4096))) i
    ∙ ap (λ x. some (pte_frame (pte_at m d (n / 1024)), x)) j

pub find_pte-no_table :
    (m : Blocks) (d n : ℕ)
    → n < 2 ^ 20
    → is_present (pte_at m d (n / 1024)) ≡ false
    → find_pte m d (n * 4096) ≡ none
find_pte-no_table m d n h p =
    let i : pdx (n * 4096) ≡ n / 1024 = omega arith in
    find_pte-out m d (n * 4096) (ap (λ x. is_present (pte_at m d x)) i ∙ p)

zero-frame : (m : Blocks) (f j : ℕ) → j < 1024 → pte_at (fill_frame m f 0) f j ≡ 0
unfolding pte_at
zero-frame m f j h =
    let self : (f == f) ≡ true = ground arith in
    let r0 : ltb (4 * j) 4096 ≡ true = ground arith in
    let r1 : ltb (4 * j + 1) 4096 ≡ true = ground arith in
    let r2 : ltb (4 * j + 2) 4096 ≡ true = ground arith in
    let r3 : ltb (4 * j + 3) 4096 ≡ true = ground arith in rw (self, r0, r1, r2, r3) refl

-- The directory may have a new table; everything else is as before.
pub record Walked (kernel_end : ℕ) (s : Vm) (d : ℕ) (own : Owner) (s' : Vm) (own' : Owner)
    : Type 0 where
  pub space : IsSpace kernel_end s' d own'
  pub entries : (n : ℕ) → n < 2 ^ 20 → entry s'.mem d n ≡ entry s.mem d n
  pub bytes : (f j : ℕ) → is_table (own' f) ≡ false → s'.mem f j ≡ s.mem f j
  pub owners : (f : ℕ) → own' f == own f || (own f == 0 && is_table (own' f)) ≡ true

walk_there :
    (s : Vm) (d va : ℕ)
    → is_present (pte_at s.mem d (pdx va)) ≡ true
    → walkpgdir s d va ≡ (some (pte_frame (pte_at s.mem d (pdx va)), ptx va), s)
unfolding walkpgdir
walk_there s d va h = rw h refl

abbrev after_kalloc : Vm → ℕ → ℕ → Option ℕ × Kmem → Option (ℕ × ℕ) × Vm
after_kalloc s d va p = elim p.0 [
  | none ↦ (none, record s { kmem = p.1 })
  | some v ↦ (
    some (frame v, ptx va),
    record {
      mem = set_pte (fill_frame s.mem (frame v) 0) d (pdx va) (sub32 v kernbase + 7);
      kmem = p.1;
    },
  )
]

walk_out :
    (s : Vm) (d va : ℕ)
    → is_present (pte_at s.mem d (pdx va)) ≡ false
    → kalloc s.kmem ≡ (none, s.kmem)
    → walkpgdir s d va ≡ (none, s)
unfolding walkpgdir
walk_out s d va h e = rw h (ap (after_kalloc s d va) e)

walk_new :
    (s : Vm) (d va v : ℕ) (k : Kmem)
    → is_present (pte_at s.mem d (pdx va)) ≡ false
    → kalloc s.kmem ≡ (some v, k)
    → walkpgdir s d va ≡ (
      some (frame v, ptx va),
      record {
        mem = set_pte (fill_frame s.mem (frame v) 0) d (pdx va) (sub32 v kernbase + 7);
        kmem = k;
      },
    )
unfolding walkpgdir
walk_new s d va v k h e = rw h (ap (after_kalloc s d va) e)

module _ (kernel_end : ℕ) (s : Vm) (d : ℕ) (own : Owner) (ok : IsSpace kernel_end s d own) where
  -- A new table, in frame `t`.
  new_table :
      (v i : ℕ) (rest : List ℕ) (k : Kmem)
      → i < 1024
      → is_present (pte_at s.mem d i) ≡ false
      → s.kmem.freelist ≡ v ∷ rest
      → k.freelist ≡ rest
      → Walked kernel_end s d own
          (record {
            mem = set_pte (fill_frame s.mem (frame v) 0) d i (frame v * 4096 + 7);
            kmem = k;
          })
          (give (give own (frame v) 1) (frame v) (3 + i))
  new_table v i rest k h p e e' =
      let (free, r, at) = Spare-frame kernel_end s d own ok v rest e in
      let untouched : SameTables own s.mem (fill_frame s.mem (frame v) 0) = λ f j o.
        fill_frame-other s.mem (frame v) 0 f j
          (Owner-differ kernel_end s d own ok (frame v) f (ground arith)) in
      let held =
        IsSpace-take kernel_end s d own ok v rest k e e' (fill_frame s.mem (frame v) 0) untouched in
      let self : (frame v == frame v) ≡ true = ground arith in
      let (space, same) =
        IsSpace-table kernel_end (record { mem = fill_frame s.mem (frame v) 0; kmem = k }) d
          (give own (frame v) 1) held (frame v) i h (ground arith) r (zero-frame s.mem (frame v))
          (ap is_present
              (directory-keep kernel_end s d own ok (fill_frame s.mem (frame v) 0) i untouched)
            ∙ p) in
      record {
        space = space;
        entries = λ n b.
            same n b
            ∙ entry-keep kernel_end s d own ok (fill_frame s.mem (frame v) 0) n untouched b;
        bytes = λ f j o.
            let e = ok.dir in
            let x = Owner-differ kernel_end s d own ok d f in
            set_pte-other (fill_frame s.mem (frame v) 0) d i (frame v * 4096 + 7) f j
              (x (ground arith))
            ∙ fill_frame-other s.mem (frame v) 0 f j (ground arith);
        owners = λ f. elim (Bool-cases (frame v == f)) [
          | inl here ↦
              let q : frame v ≡ f = ground arith in
              let a : own f ≡ 0 = ap own (sym q) ∙ free in ground arith
          | inr off ↦ ground arith
        ];
      }

  -- In an address space that is well formed, `walkpgdir` with `alloc` gives nothing only when no page
  -- is free, and changes nothing then; else it gives the entry of the address.
  pub walkpgdir_lem :
      (va : ℕ)
      → va < 2 ^ 32
      → ((walkpgdir s d va ≡ (none, s)) × (s.kmem.freelist ≡ []))
        ⊎ ((s' : Vm) × (own' : Owner) × (walkpgdir s d va
              ≡ (some (pte_frame (pte_at s'.mem d (pdx va)), ptx va), s'))
            × (is_present (pte_at s'.mem d (pdx va)) ≡ true)
            × Walked kernel_end s d own s' own')
  walkpgdir_lem va h = elim (Bool-cases (is_present (pte_at s.mem d (pdx va)))) [
    | inl p ↦ inr (
      s,
      own,
      walk_there s d va p,
      p,
      record {
        space = ok;
        entries = λ n b. refl;
        bytes = λ f j o. refl;
        owners = λ f. ground arith;
      },
    )
    | inr p ↦ elim (kalloc-cases s.kmem) [
      | inl (e, q) ↦ inl (walk_out s d va p q, e)
      | inr (v, rest, e, q) ↦
          let (free, r, at) = Spare-frame kernel_end s d own ok v rest e in
          let pa : sub32 v kernbase ≡ frame v * 4096 = ground arith in
          let w =
            new_table v (pdx va) rest (record s.kmem { freelist = rest }) (omega arith) p e refl in
          inr (
            record {
              mem = set_pte (fill_frame s.mem (frame v) 0) d (pdx va) (frame v * 4096 + 7);
              kmem = record s.kmem { freelist = rest };
            },
            give (give own (frame v) 1) (frame v) (3 + pdx va),
            found va v rest (fill_frame s.mem (frame v) 0)
                (walk_new s d va v (record s.kmem { freelist = rest }) p q) pa (ground arith),
            rw (top v (pdx va) (fill_frame s.mem (frame v) 0) (ground arith)) (ground arith),
            w,
          )
    ]
  ]
    where
      top :
          (v i : ℕ) (m : Blocks)
          → frame v * 4096 + 7 < 2 ^ 32
          → pte_at (set_pte m d i (frame v * 4096 + 7)) d i ≡ frame v * 4096 + 7
      top v i m b =
          let self : (d == d && i == i) ≡ true = ground arith in
          pte_at-set_pte m d i (frame v * 4096 + 7) d i b
          ∙ ap (λ b. if b then frame v * 4096 + 7 else pte_at m d i) self

      found :
          (va v : ℕ) (rest : List ℕ) (m : Blocks)
          → walkpgdir s d va ≡ (
            some (frame v, ptx va),
            record {
              mem = set_pte m d (pdx va) (sub32 v kernbase + 7);
              kmem = record s.kmem { freelist = rest };
            },
          )
          → sub32 v kernbase ≡ frame v * 4096
          → frame v * 4096 + 7 < 2 ^ 32
          → walkpgdir s d va ≡ (
            some
                (pte_frame (pte_at (set_pte m d (pdx va) (frame v * 4096 + 7)) d (pdx va)), ptx va),
            record {
              mem = set_pte m d (pdx va) (frame v * 4096 + 7);
              kmem = record s.kmem { freelist = rest };
            },
          )
      found va v rest m e pa b =
          let f : pte_frame (frame v * 4096 + 7) ≡ frame v = omega arith in
          e
          ∙ ap
              (λ x. (
                some (frame v, ptx va),
                record {
                  mem = set_pte m d (pdx va) (x + 7);
                  kmem = record s.kmem { freelist = rest };
                },
              ))
              pa
          ∙ ap
              (λ x. (
                some (x, ptx va),
                record {
                  mem = set_pte m d (pdx va) (frame v * 4096 + 7);
                  kmem = record s.kmem { freelist = rest };
                },
              ))
              (sym (ap pte_frame (top v (pdx va) m b) ∙ f))
