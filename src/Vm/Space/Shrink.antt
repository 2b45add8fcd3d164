-- ===== src/Vm/Space/Shrink.antt =====
-- deallocuvm frees the pages of a range.
use os_project2_test.Prelude.{
  ℕ, zero, suc, ◌+◌, ◌*◌, ◌/◌, ◌%◌, ◌^◌, ◌≡◌, ◌≤◌, ◌<◌, refl, sym, ap, ◌∙◌, true, false, none, some,
  ◌==◌, ltb, leb, min, arith, Bool-cases, inl, inr, add32,
}
use os_project2_test.Vm.{
  Vm, pdx, pte_at, set_pte, is_present, pte_frame, p2v, round_up, find_pte, free_page, fill_frame,
}
use os_project2_test.Vm.Space.{dealloc_from, deallocuvm}
use os_project2_test.Vm.Table.{entry, entry-there, entry-out, Owner, IsSpace, give, in_range}
use os_project2_test.Vm.Table.Moves.{free_page-in_range, freed}
use os_project2_test.Vm.Walk.{find_pte-page, find_pte-no_table}
use os_project2_test.Vm.Space.Shrunk.{
  within, Shrunk, Shrunk-skip, Shrunk-join, Shrunk-one, without_page,
}

dealloc-end :
    (turns kernel_end : ℕ) (s : Vm) (d a oldsz : ℕ)
    → ltb a oldsz ≡ false
    → dealloc_from turns kernel_end s d a oldsz ≡ some s
unfolding dealloc_from
dealloc-end zero kernel_end s d a oldsz h = refl
dealloc-end (suc turns) kernel_end s d a oldsz h = rw h refl

dealloc-skip :
    (turns kernel_end : ℕ) (s : Vm) (d a oldsz : ℕ)
    → ltb a oldsz ≡ true
    → find_pte s.mem d a ≡ none
    → dealloc_from (suc turns) kernel_end s d a oldsz
      ≡ dealloc_from turns kernel_end s d ((pdx a + 1) * 2 ^ 22 % 2 ^ 32) oldsz
unfolding dealloc_from
dealloc-skip turns kernel_end s d a oldsz h e = rw (h, e) refl

dealloc-past :
    (turns kernel_end : ℕ) (s : Vm) (d a oldsz t i : ℕ)
    → ltb a oldsz ≡ true
    → find_pte s.mem d a ≡ some (t, i)
    → is_present (pte_at s.mem t i) ≡ false
    → dealloc_from (suc turns) kernel_end s d a oldsz
      ≡ dealloc_from turns kernel_end s d (add32 a 4096) oldsz
unfolding dealloc_from
dealloc-past turns kernel_end s d a oldsz t i h e p = rw (h, e, p) refl

dealloc-page :
    (turns kernel_end : ℕ) (s s' : Vm) (d a oldsz t i : ℕ)
    → ltb a oldsz ≡ true
    → find_pte s.mem d a ≡ some (t, i)
    → is_present (pte_at s.mem t i) ≡ true
    → (pte_frame (pte_at s.mem t i) == 0) ≡ false
    → free_page kernel_end s (p2v (pte_frame (pte_at s.mem t i))) ≡ some s'
    → dealloc_from (suc turns) kernel_end s d a oldsz
      ≡ dealloc_from turns kernel_end
          (record s' { mem = set_pte s'.mem t i 0 })
          d
          (add32 a 4096)
          oldsz
unfolding dealloc_from
dealloc-page turns kernel_end s s' d a oldsz t i h e p nz f = rw (h, e, p, nz, f) refl

-- The pages that `size` bytes take.
abbrev pub pages_of : ℕ → ℕ
pages_of size = (size + 4095) / 4096

-- A run of `dealloc_from` that frees the pages from `lo` on.
abbrev pub Freed : ℕ → ℕ → Vm → ℕ → Owner → ℕ → ℕ → Type 0
Freed turns kernel_end s d own lo oldsz =
    (s' : Vm) × (own' : Owner) × (dealloc_from turns kernel_end s d (lo * 4096) oldsz ≡ some s')
    × Shrunk kernel_end s d own lo (pages_of oldsz) s' own'

-- The pages before `next`, if any, are not mapped.
Freed-skip :
    (turns kernel_end : ℕ) (s : Vm) (d : ℕ) (own : Owner) (k next oldsz : ℕ)
    → IsSpace kernel_end s d own
    → k ≤ next
    → ((n : ℕ) → n < 2 ^ 19 → within k next n ≡ true → is_present (entry s.mem d n) ≡ false)
    → dealloc_from (suc turns) kernel_end s d (k * 4096) oldsz
      ≡ dealloc_from turns kernel_end s d (next * 4096) oldsz
    → Freed turns kernel_end s d own next oldsz
    → Freed (suc turns) kernel_end s d own k oldsz
Freed-skip turns kernel_end s d own k next oldsz ok le out e (s', own', e', w) =
    elim (Bool-cases (ltb next (pages_of oldsz))) [
      | inl more ↦ (
        s',
        own',
        e ∙ e',
        Shrunk-join kernel_end s d own k next (pages_of oldsz) s s' own own' le (ground arith)
            (Shrunk-skip kernel_end s d own k next ok out) w,
      )
      | inr over ↦ (
        s,
        own,
        e ∙ dealloc-end turns kernel_end s d (next * 4096) oldsz (ground arith),
        Shrunk-skip kernel_end s d own k (pages_of oldsz) ok (λ n h w. out n h (ground arith)),
      )
    ]

-- Page `k` is mapped.
Freed-page :
    (turns kernel_end : ℕ) (s : Vm) (d : ℕ) (own : Owner) (k oldsz : ℕ)
    → IsSpace kernel_end s d own
    → k < 2 ^ 19
    → ltb (k * 4096) oldsz ≡ true
    → is_present (pte_at s.mem d (k / 1024)) ≡ true
    → is_present (entry s.mem d k) ≡ true
    → ((s' : Vm) (own' : Owner)
        → IsSpace kernel_end s' d own'
        → Freed turns kernel_end s' d own' (k + 1) oldsz)
    → Freed (suc turns) kernel_end s d own k oldsz
Freed-page turns kernel_end s d own k oldsz ok h under table there go =
    let one = Shrunk-one kernel_end s d own ok k h table there in
    let (s', own', e, w) =
      go (without_page kernel_end s d own ok k) (give (give own f 1) f 0) one.space in
    (
      s',
      own',
      dealloc-page turns kernel_end s (freed s f (fill_frame s.mem f 1)) d (k * 4096) oldsz
            (pte_frame (pte_at s.mem d (k / 1024))) (k % 1024) under
            (find_pte-page s.mem d k (omega arith) table) (ap is_present (sym at) ∙ there)
            (ap (λ x. pte_frame x == 0) (sym at) ∙ nonzero)
            (ap (λ x. free_page kernel_end s (p2v (pte_frame x))) (sym at)
              ∙ free_page-in_range kernel_end s f ok.above r)
          ∙ ap (λ x. dealloc_from turns kernel_end (without_page kernel_end s d own ok k) d x oldsz)
              step
          ∙ e,
      Shrunk-join kernel_end s d own k (k + 1) (pages_of oldsz)
          (without_page kernel_end s d own ok k) s' (give (give own f 1) f 0) own' (omega arith)
          (ground arith) one w,
    )
  where
    f : ℕ
    f = pte_frame (entry s.mem d k)

    at : entry s.mem d k ≡ pte_at s.mem (pte_frame (pte_at s.mem d (k / 1024))) (k % 1024)
    at = entry-there s.mem d k table

    r : in_range kernel_end f ≡ true
    r = let e = ok.range f in let o = ok.pages k h in ground arith

    nonzero : (f == 0) ≡ false
    nonzero = let a = ok.above in let b = r in ground arith

    step : add32 (k * 4096) 4096 ≡ (k + 1) * 4096
    step = omega arith

-- Enough turns free every page from `k` on.
pub dealloc_from_lem :
    (turns kernel_end : ℕ) (s : Vm) (d : ℕ) (own : Owner) (k oldsz : ℕ)
    → IsSpace kernel_end s d own
    → oldsz ≤ 2 ^ 31
    → oldsz ≤ (turns + k) * 4096
    → Freed turns kernel_end s d own k oldsz
dealloc_from_lem zero kernel_end s d own k oldsz ok small enough = (
  s,
  own,
  dealloc-end zero kernel_end s d (k * 4096) oldsz (ground arith),
  Shrunk-skip kernel_end s d own k (pages_of oldsz) ok (λ n h w. ground arith),
)
dealloc_from_lem (suc turns) kernel_end s d own k oldsz ok small enough =
    elim (Bool-cases (ltb (k * 4096) oldsz)) [
      | inr over ↦ (
        s,
        own,
        dealloc-end (suc turns) kernel_end s d (k * 4096) oldsz over,
        Shrunk-skip kernel_end s d own k (pages_of oldsz) ok (λ n h w. ground arith),
      )
      | inl under ↦ elim (Bool-cases (is_present (pte_at s.mem d (k / 1024)))) [
        | inr out ↦
            let jump : (pdx (k * 4096) + 1) * 2 ^ 22 % 2 ^ 32 ≡ (k / 1024 + 1) * 1024 * 4096 =
              ground arith in
            Freed-skip turns kernel_end s d own k ((k / 1024 + 1) * 1024) oldsz ok (omega arith)
              (λ n h w.
                let q : k / 1024 ≡ n / 1024 = ground arith in
                ap is_present
                  (entry-out s.mem d n (ap (λ x. is_present (pte_at s.mem d x)) (sym q) ∙ out)))
              (dealloc-skip turns kernel_end s d (k * 4096) oldsz under
                  (find_pte-no_table s.mem d k (ground arith) out)
                ∙ ap (λ x. dealloc_from turns kernel_end s d x oldsz) jump)
              (dealloc_from_lem turns kernel_end s d own ((k / 1024 + 1) * 1024) oldsz ok small
                (omega arith))
        | inl table ↦ elim (Bool-cases (is_present (entry s.mem d k))) [
          | inr absent ↦
              let step : add32 (k * 4096) 4096 ≡ (k + 1) * 4096 = ground arith in
              Freed-skip turns kernel_end s d own k (k + 1) oldsz ok (omega arith)
                (λ n h w.
                  let q : k ≡ n = ground arith in
                  ap (λ x. is_present (entry s.mem d x)) (sym q) ∙ absent)
                (dealloc-past turns kernel_end s d (k * 4096) oldsz
                    (pte_frame (pte_at s.mem d (k / 1024))) (k % 1024) under
                    (find_pte-page s.mem d k (ground arith) table)
                    (ap is_present (sym (entry-there s.mem d k table)) ∙ absent)
                  ∙ ap (λ x. dealloc_from turns kernel_end s d x oldsz) step)
                (dealloc_from_lem turns kernel_end s d own (k + 1) oldsz ok small (omega arith))
          | inl there ↦
              Freed-page turns kernel_end s d own k oldsz ok (ground arith) under table there
                (λ s' own' ok'.
                  dealloc_from_lem turns kernel_end s' d own' (k + 1) oldsz ok' small (omega arith))
        ]
      ]
    ]

deallocuvm-kept :
    (kernel_end : ℕ) (s : Vm) (d oldsz newsz : ℕ)
    → leb oldsz newsz ≡ true
    → deallocuvm kernel_end s d oldsz newsz ≡ some (oldsz, s)
unfolding deallocuvm
deallocuvm-kept kernel_end s d oldsz newsz h = rw h refl

deallocuvm-less :
    (kernel_end : ℕ) (s s' : Vm) (d oldsz newsz : ℕ)
    → leb oldsz newsz ≡ false
    → dealloc_from (oldsz / 4096 + 1) kernel_end s d (round_up newsz) oldsz ≡ some s'
    → deallocuvm kernel_end s d oldsz newsz ≡ some (newsz, s')
unfolding deallocuvm
deallocuvm-less kernel_end s s' d oldsz newsz h e = rw (h, e) refl

-- In an address space whose tables and pages are its own and whose free frames are on the free
-- list, each once, and for an old size of at most 2^31, `deallocuvm` does not panic, with as
-- many turns as the old size has pages and one more; it returns the smaller size, unmaps exactly
-- the pages from the new size to the old one, puts exactly their frames back on the free list,
-- and leaves other entries and bytes as they were.
pub deallocuvm_lem :
    (kernel_end : ℕ) (s : Vm) (d : ℕ) (own : Owner) (oldsz newsz : ℕ)
    → IsSpace kernel_end s d own
    → oldsz ≤ 2 ^ 31
    → (s' : Vm) × (own' : Owner) × (deallocuvm kernel_end s d oldsz newsz
        ≡ some (min oldsz newsz, s'))
      × Shrunk kernel_end s d own (pages_of newsz) (pages_of oldsz) s' own'
deallocuvm_lem kernel_end s d own oldsz newsz ok small = elim (Bool-cases (leb oldsz newsz)) [
  | inl kept ↦
      let q : oldsz ≡ min oldsz newsz = ground arith in
      (
        s,
        own,
        deallocuvm-kept kernel_end s d oldsz newsz kept ∙ ap (λ x. some (x, s)) q,
        Shrunk-skip kernel_end s d own (pages_of newsz) (pages_of oldsz) ok (λ n h w. ground arith),
      )
  | inr less ↦
      let (s', own', e, w) =
        dealloc_from_lem (oldsz / 4096 + 1) kernel_end s d own (pages_of newsz) oldsz ok small
          (omega arith) in
      let a : round_up newsz ≡ pages_of newsz * 4096 = ground arith in
      let q : newsz ≡ min oldsz newsz = ground arith in
      (
        s',
        own',
        deallocuvm-less kernel_end s s' d oldsz newsz less
              (ap (λ x. dealloc_from (oldsz / 4096 + 1) kernel_end s d x oldsz) a ∙ e)
            ∙ ap (λ x. some (x, s')) q,
        w,
      )
]
