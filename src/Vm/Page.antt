-- ===== src/Vm/Page.antt =====
-- mappages of a single page, as allocuvm, copyuvm and inituvm call it.
use os_project2_test.Prelude.{
  ℕ, ◌+◌, ◌*◌, ◌/◌, ◌%◌, ◌^◌, ◌≡◌, ◌<◌, sym, ap, ◌∙◌, Bool, true, false, ◌&&◌, ◌||◌, Option, none,
  some, [], ◌==◌, if◌then◌else◌, arith, Bool-cases, inl, inr, ◌⊎◌, sub32, add32,
}
use os_project2_test.Vm.{
  Vm, pdx, ptx, pte_at, set_pte, is_present, pte_frame, new_pte, round_down, walkpgdir, map_from,
  mappages,
}
use os_project2_test.Vm.Table.{
  set_pte-other, entry, entry-there, Owner, give, is_table, in_range, IsSpace,
}
use os_project2_test.Vm.Table.Owned.{entry-set_pte, Owner-differ}
use os_project2_test.Vm.Table.Change.{write_entry, IsSpace-map}
use os_project2_test.Vm.Walk.{walkpgdir_lem}

-- Page `n` is mapped to frame `f`; the directory may have a new table; all else is as before.
pub record Mapped (kernel_end : ℕ) (s : Vm) (d : ℕ) (own : Owner) (n f e : ℕ) (s' : Vm)
    (own' : Owner) : Type 0 where
  pub space : IsSpace kernel_end s' d own'
  pub entries :
      (n' : ℕ) → n' < 2 ^ 20 → entry s'.mem d n' ≡ (if n == n' then e else entry s.mem d n')
  pub bytes : (g j : ℕ) → is_table (own' g) ≡ false → s'.mem g j ≡ s.mem g j
  pub owners :
      (g : ℕ)
      → own' g == (if f == g then 2000 + n else own g) || (own g == 0 && is_table (own' g)) ≡ true

-- What a turn of mappages' loop does with the answer of walkpgdir; it is the last turn.
abbrev after_walk : Bool → ℕ → Option (ℕ × ℕ) × Vm → Option (Bool × Vm)
after_walk last e p = elim p.0 [
  | none ↦ some (false, p.1)
  | some w ↦
      if is_present (pte_at p.1.mem w.0 w.1)
      then none
      else if last
      then some (true, record p.1 { mem = set_pte p.1.mem w.0 w.1 e })
      else none
]

map_from-one :
    (s : Vm) (d va pa perm : ℕ)
    → map_from 1 s d va va pa perm ≡ after_walk true (new_pte pa perm) (walkpgdir s d va)
unfolding map_from
map_from-one s d va pa perm =
    let self : (va == va) ≡ true = ground arith in
    ap (λ b. after_walk b (new_pte pa perm) (walkpgdir s d va)) self

mappages-one :
    (s : Vm) (d n pa perm : ℕ)
    → n < 2 ^ 19
    → mappages s d (n * 4096) 4096 pa perm ≡ map_from 1 s d (n * 4096) (n * 4096) pa perm
unfolding mappages
mappages-one s d n pa perm h =
    let first : round_down (n * 4096) ≡ n * 4096 = omega arith in
    let last : round_down (sub32 (add32 (n * 4096) 4096) 1) ≡ n * 4096 = omega arith in
    let turns : sub32 (n * 4096) (n * 4096) / 4096 + 1 ≡ 1 = omega arith in
    ap
      (λ x.
        map_from (sub32 (round_down (sub32 (add32 (n * 4096) 4096) 1)) x / 4096 + 1) s d x
          (round_down (sub32 (add32 (n * 4096) 4096) 1)) pa perm)
      first
    ∙ ap (λ x. map_from (sub32 x (n * 4096) / 4096 + 1) s d (n * 4096) x pa perm) last
    ∙ ap (λ x. map_from x s d (n * 4096) (n * 4096) pa perm) turns

-- In an address space whose tables and pages are its own, for a page below the kernel's that is
-- not mapped and a frame that is held, `mappages` of the page does not panic; either no page is
-- free, and it fails without a change, or exactly that page's entry changes, to the frame and
-- the flags, and the address space stays well formed.
pub mappages-page :
    (kernel_end : ℕ) (s : Vm) (d : ℕ) (own : Owner) (n f perm : ℕ)
    → IsSpace kernel_end s d own
    → n < 2 ^ 19
    → own f ≡ 1
    → in_range kernel_end f ≡ true
    → perm < 4096
    → is_present (entry s.mem d n) ≡ false
    → ((mappages s d (n * 4096) 4096 (f * 4096) perm ≡ some (false, s)) × (s.kmem.freelist ≡ []))
      ⊎ ((s' : Vm) × (own' : Owner) × (mappages s d (n * 4096) 4096 (f * 4096) perm
            ≡ some (true, s'))
          × Mapped kernel_end s d own n f (new_pte (f * 4096) perm) s' own')
mappages-page kernel_end s d own n f perm ok h o r hp out =
    let va : n * 4096 < 2 ^ 32 = omega arith in
    elim (walkpgdir_lem kernel_end s d own ok (n * 4096) va) [
      | inl (e, q) ↦ inl (run ∙ ap (after_walk true (new_pte (f * 4096) perm)) e, q)
      | inr (s', own', e, p, w) ↦
          let p' : is_present (pte_at s'.mem d (n / 1024)) ≡ true =
            ap (λ x. is_present (pte_at s'.mem d x)) (sym dir_index) ∙ p in
          let out' : is_present (entry s'.mem d n) ≡ false =
            ap is_present (w.entries n (omega arith)) ∙ out in
          let absent : is_present
                (pte_at s'.mem (pte_frame (pte_at s'.mem d (n / 1024))) (n % 1024))
              ≡ false =
            ap is_present (sym (entry-there s'.mem d n p')) ∙ out' in
          let held : own' f ≡ 1 = let q = w.owners f in ground arith in
          let range = r in
          let big : new_pte (f * 4096) perm < 2 ^ 32 = ground arith in
          let odd : is_present (new_pte (f * 4096) perm) ≡ true = ground arith in
          let top : pte_frame (new_pte (f * 4096) perm) ≡ f = ground arith in
          inr (
            write_entry s' d n (new_pte (f * 4096) perm),
            give own' f (2000 + n),
            run
                ∙ ap (after_walk true (new_pte (f * 4096) perm)) (e ∙ place s')
                ∙ ap
                    (λ b.
                      if b then none else some (true, write_entry s' d n (new_pte (f * 4096) perm)))
                    absent,
            record {
              space =
                  IsSpace-map kernel_end s' d own' w.space n f (new_pte (f * 4096) perm) h big odd
                    top held r p' out';
              entries = λ n' k.
                  entry-set_pte kernel_end s' d own' w.space n n' (new_pte (f * 4096) perm)
                    (omega arith) k big p'
                  ∙ ap (λ x. if n == n' then new_pte (f * 4096) perm else x) (w.entries n' k);
              bytes = λ g j k.
                  let e = w.space.tables (n / 1024) (omega arith) in
                  let x =
                    Owner-differ kernel_end s' d own' w.space
                      (pte_frame (pte_at s'.mem d (n / 1024))) g in
                  elim (Bool-cases (f == g)) [
                    | inl at ↦
                        let q : f ≡ g = ground arith in
                        let o' : own' g ≡ 1 = ap own' (sym q) ∙ held in
                        set_pte-other s'.mem (pte_frame (pte_at s'.mem d (n / 1024))) (n % 1024)
                          (new_pte (f * 4096) perm) g j (x (ground arith))
                        ∙ w.bytes g j (ground arith)
                    | inr off ↦
                        set_pte-other s'.mem (pte_frame (pte_at s'.mem d (n / 1024))) (n % 1024)
                          (new_pte (f * 4096) perm) g j (x (ground arith))
                        ∙ w.bytes g j (ground arith)
                  ];
              owners = λ g. let q = w.owners g in ground arith;
            },
          )
    ]
  where
    run :
        mappages s d (n * 4096) 4096 (f * 4096) perm
        ≡ after_walk true (new_pte (f * 4096) perm) (walkpgdir s d (n * 4096))
    run = mappages-one s d n (f * 4096) perm h ∙ map_from-one s d (n * 4096) (f * 4096) perm

    dir_index : pdx (n * 4096) ≡ n / 1024
    dir_index = omega arith

    index : ptx (n * 4096) ≡ n % 1024
    index = omega arith

    place :
        (s' : Vm)
        → ◌≡◌ {A = Option (ℕ × ℕ) × Vm}
            (some (pte_frame (pte_at s'.mem d (pdx (n * 4096))), ptx (n * 4096)), s')
            (some (pte_frame (pte_at s'.mem d (n / 1024)), n % 1024), s')
    place s' =
        ap (λ x. (some (pte_frame (pte_at s'.mem d x), ptx (n * 4096)), s')) dir_index
        ∙ ap (λ x. (some (pte_frame (pte_at s'.mem d (n / 1024)), x), s')) index
