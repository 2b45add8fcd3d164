-- ===== src/Vm/Sbrk/Sized.antt =====
-- A process's pages are those below its size, whatever sbrk is called with.
use os_project2_test.Prelude.{
  ℕ, ◌+◌, ◌/◌, ◌%◌, ◌^◌, ◌≡◌, ◌≤◌, ◌<◌, refl, sym, ap, subst, ◌∙◌, true, false, ◌&&◌, Option, none,
  some, ◌==◌, ltb, leb, if◌then◌else◌, min, arith, Bool-cases, inl, inr, ◌⊎◌, add32, lt_int,
  minus_one,
}
use os_project2_test.Kalloc.{kernbase}
use os_project2_test.Vm.{Vm, is_present, pte_frame}
use os_project2_test.Vm.Table.{entry, Owner, IsSpace}
use os_project2_test.Vm.Space.{allocuvm, deallocuvm}
use os_project2_test.Vm.Space.Shrunk.{within, Shrunk}
use os_project2_test.Vm.Space.Shrink.{pages_of, deallocuvm_lem}
use os_project2_test.Vm.Space.Grown.{Grown, Unmoved}
use os_project2_test.Vm.Space.Grow.{allocuvm_lem, allocuvm-high}
use os_project2_test.Vm.Copy.Copied.{user_byte}
use os_project2_test.Vm.Sbrk.{size_or_none, growproc, sys_sbrk}

-- Exactly the pages below the size are mapped.
pub record IsSized (kernel_end : ℕ) (s : Vm) (d : ℕ) (own : Owner) (sz : ℕ) : Type 0 where
  pub space : IsSpace kernel_end s d own
  pub bound : sz < kernbase
  pub pages : (n : ℕ) → n < 2 ^ 19 → is_present (entry s.mem d n) ≡ ltb n (pages_of sz)

-- The process has another size; the bytes below both sizes are as before.
pub record Resized (kernel_end : ℕ) (s : Vm) (d sz : ℕ) (s' : Vm) (own' : Owner) (sz' : ℕ)
    : Type 0 where
  pub sized : IsSized kernel_end s' d own' sz'
  pub bytes : (x : ℕ) → x < min sz sz' → user_byte s'.mem d x ≡ user_byte s.mem d x

module _ (kernel_end : ℕ) (s : Vm) (d : ℕ) (own : Owner) (sz : ℕ)
    (h : IsSized kernel_end s d own sz) where
  pub Resized-same : Resized kernel_end s d sz s own sz
  Resized-same = record { sized = h; bytes = λ x k. refl }

  -- The bytes of a page that keeps its entry, in frames that keep their bytes.
  kept_byte :
      (s' : Vm) (x : ℕ)
      → x < sz
      → entry s'.mem d (x / 4096) ≡ entry s.mem d (x / 4096)
      → ((g j : ℕ) → own g ≡ 2000 + x / 4096 → s'.mem g j ≡ s.mem g j)
      → user_byte s'.mem d x ≡ user_byte s.mem d x
  kept_byte s' x k e same =
      let b = h.bound in
      let p = h.pages (x / 4096) (omega (arith, k, b)) in
      let o = h.space.pages (x / 4096) (omega (arith, k, b)) in
      ap (λ w. s'.mem (pte_frame w) (x % 4096)) e
      ∙ same (pte_frame (entry s.mem d (x / 4096))) (x % 4096) (ground arith)

  Resized-Grown :
      (s' : Vm) (own' : Owner) (newsz : ℕ)
      → sz ≤ newsz
      → newsz < kernbase
      → Grown kernel_end s d own (pages_of sz) (pages_of newsz) s' own'
      → Resized kernel_end s d sz s' own' newsz
  Resized-Grown s' own' newsz le small g = record {
    sized = record {
      space = g.space;
      bound = small;
      pages = λ n k. elim (Bool-cases (within (pages_of sz) (pages_of newsz) n)) [
        | inl new ↦ let f = g.fresh n k new in ground arith
        | inr old ↦ ap is_present (g.kept n (omega (arith, k)) old) ∙ h.pages n k ∙ ground arith
      ];
    };
    bytes = λ x k.
        let b = h.bound in
        kept_byte s' x (omega (arith, k)) (g.kept (x / 4096) (omega (arith, k, b)) (ground arith))
          (λ f j o. g.bytes f j (ground arith));
  }

  Resized-Unmoved :
      (s' : Vm) (own' : Owner)
      → Unmoved kernel_end s d own s' own'
      → Resized kernel_end s d sz s' own' sz
  Resized-Unmoved s' own' u = record {
    sized = record { space = u.space; bound = h.bound; pages = λ n k. u.present n k ∙ h.pages n k };
    bytes = λ x k.
        let b = h.bound in
        let p = h.pages (x / 4096) (omega (arith, k, b)) in
        kept_byte s' x (omega (arith, k))
          (u.entries (x / 4096) (omega (arith, k, b)) (ground arith))
          (λ f j o. u.bytes f j (ground arith));
  }

  Resized-Shrunk :
      (s' : Vm) (own' : Owner) (newsz : ℕ)
      → Shrunk kernel_end s d own (pages_of newsz) (pages_of sz) s' own'
      → Resized kernel_end s d sz s' own' (min sz newsz)
  Resized-Shrunk s' own' newsz w = record {
    sized = record {
      space = w.space;
      bound = let b = h.bound in omega (arith, b);
      pages = λ n k. elim (Bool-cases (within (pages_of newsz) (pages_of sz) n)) [
        | inl gone ↦ w.gone n k gone ∙ ground arith
        | inr kept ↦ ap is_present (w.kept n (omega (arith, k)) kept) ∙ h.pages n k ∙ ground arith
      ];
    };
    bytes = λ x k.
        let b = h.bound in
        kept_byte s' x (omega (arith, k)) (w.kept (x / 4096) (omega (arith, k, b)) (ground arith))
          (λ f j o. w.bytes f j (ground arith) (ground arith) (ground arith));
  }

grow_some :
    (kernel_end : ℕ) (s s' : Vm) (d sz n sz' : ℕ)
    → lt_int 0 n ≡ true
    → allocuvm kernel_end s d sz (add32 sz n) ≡ some (sz', s')
    → growproc kernel_end s d sz n ≡ some (size_or_none sz', s')
unfolding growproc
grow_some kernel_end s s' d sz n sz' h e = rw (h, e) refl

shrink_some :
    (kernel_end : ℕ) (s s' : Vm) (d sz n sz' : ℕ)
    → lt_int 0 n ≡ false
    → lt_int n 0 ≡ true
    → deallocuvm kernel_end s d sz (add32 sz n) ≡ some (sz', s')
    → growproc kernel_end s d sz n ≡ some (size_or_none sz', s')
unfolding growproc
shrink_some kernel_end s s' d sz n sz' h h' e = rw (h, h', e) refl

stay_some :
    (kernel_end : ℕ) (s : Vm) (d sz n : ℕ)
    → lt_int 0 n ≡ false
    → lt_int n 0 ≡ false
    → growproc kernel_end s d sz n ≡ some (some sz, s)
unfolding growproc
stay_some kernel_end s d sz n h h' = rw (h, h') refl

-- The size after `growproc`.
abbrev pub size_after : ℕ → Option ℕ → ℕ
size_after sz none = sz
size_after sz (some sz') = sz'

-- The size that is asked for; a process cannot shrink below nothing.
abbrev pub target : ℕ → ℕ → ℕ
target sz n = if lt_int n 0 then min sz (add32 sz n) else add32 sz n

-- How growproc ends.
abbrev pub Ends : ℕ → Vm → ℕ → ℕ → ℕ → Type 0
Ends kernel_end s d sz n =
    (r : Option ℕ) × (s' : Vm) × (own' : Owner) × (growproc kernel_end s d sz n ≡ some (r, s'))
    × ((r ≡ none) ⊎ (r ≡ some (target sz n)))
    × Resized kernel_end s d sz s' own' (size_after sz r)

size_some : (sz : ℕ) → (sz == 0) ≡ false → size_or_none sz ≡ some sz
size_some sz h = rw h refl

size_none : (sz : ℕ) → sz ≡ 0 → size_or_none sz ≡ none
size_none sz e = ap size_or_none e

growproc-more :
    (kernel_end : ℕ) (s : Vm) (d : ℕ) (own : Owner) (sz n : ℕ)
    → IsSized kernel_end s d own sz
    → n < 2 ^ 32
    → lt_int 0 n ≡ true
    → Ends kernel_end s d sz n
growproc-more kernel_end s d own sz n h small more =
    let b = h.bound in
    let up : add32 sz n ≡ sz + n = ground arith in
    let not_less : false ≡ lt_int n 0 = ground arith in
    elim (Bool-cases (leb kernbase (add32 sz n))) [
      | inl high ↦ (
        none,
        s,
        own,
        grow_some kernel_end s s d sz n 0 more (allocuvm-high kernel_end s d sz (add32 sz n) high),
        inl refl,
        Resized-same kernel_end s d own sz h,
      )
      | inr low ↦
          let (s', own', end) =
            allocuvm_lem kernel_end s d own sz (add32 sz n) h.space (ground arith) (ground arith)
              (λ k i w. let p = h.pages k i in ground arith) in
          elim end [
            | inl (e, g) ↦ (
              some (add32 sz n),
              s',
              own',
              grow_some kernel_end s s' d sz n (add32 sz n) more e
                  ∙ ap (λ r. some (r, s')) (size_some (add32 sz n) (ground arith)),
              inr (ap (λ b. some (if b then min sz (add32 sz n) else add32 sz n)) not_less),
              Resized-Grown kernel_end s d own sz h s' own' (add32 sz n) (ground arith)
                  (ground arith) g,
            )
            | inr (e, u) ↦ (
              none,
              s',
              own',
              grow_some kernel_end s s' d sz n 0 more e,
              inl refl,
              Resized-Unmoved kernel_end s d own sz h s' own' u,
            )
          ]
    ]

growproc-less :
    (kernel_end : ℕ) (s : Vm) (d : ℕ) (own : Owner) (sz n : ℕ)
    → IsSized kernel_end s d own sz
    → n < 2 ^ 32
    → lt_int 0 n ≡ false
    → lt_int n 0 ≡ true
    → (add32 sz n == 0) ≡ false
    → Ends kernel_end s d sz n
growproc-less kernel_end s d own sz n h small up down part =
    let b = h.bound in
    let (s', own', e, w) =
      deallocuvm_lem kernel_end s d own sz (add32 sz n) h.space (ground arith) in
    elim (Bool-cases (min sz (add32 sz n) == 0)) [
      | inl none_left ↦
          let q : min sz (add32 sz n) ≡ 0 = ground arith in
          let z : sz ≡ 0 = ground arith in
          (
            none,
            s',
            own',
            shrink_some kernel_end s s' d sz n (min sz (add32 sz n)) up down e
                ∙ ap (λ r. some (r, s')) (size_none (min sz (add32 sz n)) q),
            inl refl,
            subst (Resized kernel_end s d sz s' own') (q ∙ sym z)
                (Resized-Shrunk kernel_end s d own sz h s' own' (add32 sz n) w),
          )
      | inr left ↦ (
        some (min sz (add32 sz n)),
        s',
        own',
        shrink_some kernel_end s s' d sz n (min sz (add32 sz n)) up down e
            ∙ ap (λ r. some (r, s')) (size_some (min sz (add32 sz n)) left),
        inr (ap (λ b. some (if b then min sz (add32 sz n) else add32 sz n)) (sym down)),
        Resized-Shrunk kernel_end s d own sz h s' own' (add32 sz n) w,
      )
    ]

pub growproc_lem :
    (kernel_end : ℕ) (s : Vm) (d : ℕ) (own : Owner) (sz n : ℕ)
    → IsSized kernel_end s d own sz
    → n < 2 ^ 32
    → (lt_int n 0 && add32 sz n == 0) ≡ false
    → Ends kernel_end s d sz n
growproc_lem kernel_end s d own sz n h small part = elim (Bool-cases (lt_int 0 n)) [
  | inl more ↦ growproc-more kernel_end s d own sz n h small more
  | inr up ↦ elim (Bool-cases (lt_int n 0)) [
    | inl down ↦ growproc-less kernel_end s d own sz n h small up down (ground arith)
    | inr stay ↦ (
      some sz,
      s,
      own,
      stay_some kernel_end s d sz n up stay,
      inr (
          let q : sz ≡ add32 sz n = (let b = h.bound in ground arith) in
          ap some q ∙ ap (λ b. some (if b then min sz (add32 sz n) else add32 sz n)) (sym stay)),
      Resized-same kernel_end s d own sz h,
    )
  ]
]

sbrk-failed :
    (kernel_end : ℕ) (s s' : Vm) (d sz n : ℕ)
    → growproc kernel_end s d sz n ≡ some (none, s')
    → sys_sbrk kernel_end s d sz (some n) ≡ some (minus_one, sz, s')
unfolding sys_sbrk
sbrk-failed kernel_end s s' d sz n e = rw (e, sys_sbrk) refl

sbrk-done :
    (kernel_end : ℕ) (s s' : Vm) (d sz n sz' : ℕ)
    → growproc kernel_end s d sz n ≡ some (some sz', s')
    → sys_sbrk kernel_end s d sz (some n) ≡ some (sz, sz', s')
unfolding sys_sbrk
sbrk-done kernel_end s s' d sz n sz' e = rw (e, sys_sbrk) refl

-- For a process of a size below the kernel's addresses, with a well-formed address space in
-- which exactly the pages below its size are mapped, and a count of bytes that does not take the
-- size to exactly 0 by a negative count: `sys_sbrk` does not panic; it returns -1 and the size
-- stays, or returns the old size and the size is the one asked for, a count below nothing having
-- no effect; in both cases exactly the pages below the size are mapped afterwards, and the bytes
-- below both sizes are as before.
pub sys_sbrk-Resized :
    (kernel_end : ℕ) (s : Vm) (d : ℕ) (own : Owner) (sz n : ℕ)
    → IsSized kernel_end s d own sz
    → n < 2 ^ 32
    → (lt_int n 0 && add32 sz n == 0) ≡ false
    → (s' : Vm) × (own' : Owner) × (((sys_sbrk kernel_end s d sz (some n)
            ≡ some (minus_one, sz, s'))
          × Resized kernel_end s d sz s' own' sz)
        ⊎ ((sys_sbrk kernel_end s d sz (some n) ≡ some (sz, target sz n, s'))
            × Resized kernel_end s d sz s' own' (target sz n)))
sys_sbrk-Resized kernel_end s d own sz n h small part =
    let (r, s', own', e, how, w) = growproc_lem kernel_end s d own sz n h small part in
    elim how [
      | inl q ↦ (
        s',
        own',
        inl (
          sbrk-failed kernel_end s s' d sz n (e ∙ ap (λ x. some (x, s')) q),
          subst (λ x. Resized kernel_end s d sz s' own' (size_after sz x)) q w,
        ),
      )
      | inr q ↦ (
        s',
        own',
        inr (
          sbrk-done kernel_end s s' d sz n (target sz n) (e ∙ ap (λ x. some (x, s')) q),
          subst (λ x. Resized kernel_end s d sz s' own' (size_after sz x)) q w,
        ),
      )
    ]
