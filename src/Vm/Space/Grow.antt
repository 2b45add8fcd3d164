-- ===== src/Vm/Space/Grow.antt =====
-- allocuvm grows an address space by clear pages, or leaves it as it was.
use os_project2_test.Prelude.{
  ℕ, zero, suc, ◌+◌, ◌*◌, ◌/◌, ◌^◌, ◌≡◌, ◌≤◌, ◌<◌, refl, ap, subst, ◌∙◌, Bool, true, false, Option,
  none, some, List, ◌∷◌, ◌==◌, ltb, leb, if◌then◌else◌, min, arith, Bool-cases, inl, inr, ◌⊎◌,
  sub32, add32,
}
use os_project2_test.Kalloc.{kernbase, Kmem, kalloc}
use os_project2_test.Fs.{Blocks}
use os_project2_test.Vm.{Vm, is_present, frame, p2v, fill_frame, round_up, mappages, free_page}
use os_project2_test.Vm.Table.{entry, Owner, give, in_range, IsSpace}
use os_project2_test.Vm.Table.Moves.{fill_frame-other, Spare-frame, free_page-in_range, freed}
use os_project2_test.Vm.Walk.{kalloc-cases}
use os_project2_test.Vm.Page.{mappages-page}
use os_project2_test.Vm.Space.{deallocuvm, alloc_from, allocuvm}
use os_project2_test.Vm.Space.Shrunk.{within, Shrunk}
use os_project2_test.Vm.Space.Shrink.{pages_of, deallocuvm_lem}
use os_project2_test.Vm.Space.Grown.{
  Grown, Unmoved, Grown-none, Grown-Shrunk, Grown-page, Shrunk-held, taken, taken-entry,
  IsSpace-taken,
}

alloc-end :
    (turns kernel_end : ℕ) (s : Vm) (d a oldsz newsz : ℕ)
    → ltb a newsz ≡ false
    → alloc_from turns kernel_end s d a oldsz newsz ≡ some (true, s)
unfolding alloc_from
alloc-end zero kernel_end s d a oldsz newsz h = refl
alloc-end (suc turns) kernel_end s d a oldsz newsz h = rw h refl

abbrev after_full : Option (ℕ × Vm) → Option (Bool × Vm)
after_full p = elim p [ none ↦ none | some (size, s) ↦ some (false, s) ]

abbrev after_free : Option Vm → Option (Bool × Vm)
after_free p = elim p [ none ↦ none | some s ↦ some (false, s) ]

abbrev after_dealloc : ℕ → ℕ → Option (ℕ × Vm) → Option (Bool × Vm)
after_dealloc kernel_end v p = elim p [
  | none ↦ none
  | some (size, s) ↦ after_free (free_page kernel_end s v)
]

-- What a turn does with the answer of mappages, and what it does with that of kalloc.
abbrev after_map : ℕ → ℕ → ℕ → ℕ → ℕ → ℕ → ℕ → Option (Bool × Vm) → Option (Bool × Vm)
after_map turns kernel_end d a oldsz newsz v p = elim p [
  | none ↦ none
  | some (ok, s') ↦ elim ok [
    | true ↦ alloc_from turns kernel_end s' d (add32 a 4096) oldsz newsz
    | false ↦ after_dealloc kernel_end v (deallocuvm kernel_end s' d newsz oldsz)
  ]
]

abbrev after_kalloc : ℕ → ℕ → Vm → ℕ → ℕ → ℕ → ℕ → Option ℕ × Kmem → Option (Bool × Vm)
after_kalloc turns kernel_end s d a oldsz newsz p = elim p.0 [
  | none ↦ elim (deallocuvm kernel_end (record s { kmem = p.1 }) d newsz oldsz) [
    | none ↦ none
    | some (size, s') ↦ some (false, s')
  ]
  | some v ↦ after_map turns kernel_end d a oldsz newsz v (
      mappages (record { mem = fill_frame s.mem (frame v) 0; kmem = p.1 }) d a 4096
        (sub32 v kernbase) 6)
]

alloc-turn :
    (turns kernel_end : ℕ) (s : Vm) (d a oldsz newsz : ℕ)
    → ltb a newsz ≡ true
    → alloc_from (suc turns) kernel_end s d a oldsz newsz
      ≡ after_kalloc turns kernel_end s d a oldsz newsz (kalloc s.kmem)
unfolding alloc_from
alloc-turn turns kernel_end s d a oldsz newsz h = rw h refl

-- How allocuvm's loop ends: all pages are there, or none.
pub data Alloced (kernel_end : ℕ) (s : Vm) (d : ℕ) (own : Owner) (lo hi : ℕ)
    (run : Option (Bool × Vm)) : Type 0 where
  all_there :
      (s' : Vm) (own' : Owner)
      → run ≡ some (true, s')
      → Grown kernel_end s d own lo hi s' own'
      → Alloced kernel_end s d own lo hi run
  none_there :
      (s' : Vm) (own' : Owner)
      → run ≡ some (false, s')
      → Unmoved kernel_end s d own s' own'
      → Alloced kernel_end s d own lo hi run

Alloced-same :
    (kernel_end : ℕ) (s : Vm) (d : ℕ) (own : Owner) (lo hi : ℕ) (run run' : Option (Bool × Vm))
    → run' ≡ run
    → Alloced kernel_end s d own lo hi run
    → Alloced kernel_end s d own lo hi run'
Alloced-same kernel_end s d own lo hi run run' q (all_there s' own' e g) =
    all_there s' own' (q ∙ e) g
Alloced-same kernel_end s d own lo hi run run' q (none_there s' own' e g) =
    none_there s' own' (q ∙ e) g

module _ (kernel_end : ℕ) (s₀ : Vm) (d : ℕ) (own₀ : Owner) (oldsz newsz : ℕ)
    (ok₀ : IsSpace kernel_end s₀ d own₀) where
  abbrev NoPages : Type 0
  NoPages =
      (n : ℕ)
      → n < 2 ^ 19
      → within (pages_of oldsz) (pages_of newsz) n ≡ true
      → is_present (entry s₀.mem d n) ≡ false

  -- No page was free: the pages that were got are given back.
  gives_back :
      (s s₂ : Vm) (own own₂ : Owner) (k : ℕ)
      → k ≤ pages_of newsz
      → NoPages
      → Grown kernel_end s₀ d own₀ (pages_of oldsz) k s own
      → Shrunk kernel_end s d own (pages_of oldsz) (pages_of newsz) s₂ own₂
      → Unmoved kernel_end s₀ d own₀ s₂ own₂
  gives_back s s₂ own own₂ k le out g w =
      Grown-Shrunk kernel_end s₀ d own₀ (pages_of oldsz) k (pages_of newsz) s s₂ own own₂ le out
        (λ f n o. let e = ok₀.mapped f n o in ground arith) g w

  -- A turn that gets a page.
  turn-page :
      (turns : ℕ) (s : Vm) (own : Owner) (k v : ℕ) (rest : List ℕ)
      → newsz ≤ 2 ^ 31
      → k < pages_of newsz
      → pages_of oldsz ≤ k
      → NoPages
      → Grown kernel_end s₀ d own₀ (pages_of oldsz) k s own
      → s.kmem.freelist ≡ v ∷ rest
      → ((s' : Vm) (own' : Owner)
          → Grown kernel_end s₀ d own₀ (pages_of oldsz) (k + 1) s' own'
          → Alloced kernel_end s₀ d own₀
              (pages_of oldsz)
              (pages_of newsz)
              (alloc_from turns kernel_end s' d ((k + 1) * 4096) oldsz newsz))
      → Alloced kernel_end s₀ d own₀ (pages_of oldsz) (pages_of newsz) (
          after_map turns kernel_end d (k * 4096) oldsz newsz v (
            mappages
              (taken s v rest (fill_frame s.mem (frame v) 0))
              d
              (k * 4096)
              4096
              (frame v * 4096)
              6))
  turn-page turns s own k v rest small under lo out g e go =
      elim (mappages-page kernel_end (taken s v rest m) d (give own (frame v) 1) k (frame v) 6
        (IsSpace-taken kernel_end s d own g.space v rest m e only) (ground arith) (ground arith) r
        (ground arith) absent) [
          | inl (e', q) ↦
              let (s₂, own₂, dealloc, w) =
                deallocuvm_lem kernel_end (taken s v rest m) d (give own (frame v) 1) newsz oldsz
                  (IsSpace-taken kernel_end s d own g.space v rest m e only) small in
              none_there (freed s₂ (frame v) (fill_frame s₂.mem (frame v) 1))
                (give own₂ (frame v) 0)
                (ap (after_map turns kernel_end d (k * 4096) oldsz newsz v) e'
                  ∙ failed (taken s v rest m) s₂
                      (freed s₂ (frame v) (fill_frame s₂.mem (frame v) 1)) (min newsz oldsz) dealloc
                      (ap (free_page kernel_end s₂) at
                        ∙ free_page-in_range kernel_end s₂ (frame v) g.space.above r))
                (gives_back s (freed s₂ (frame v) (fill_frame s₂.mem (frame v) 1)) own
                  (give own₂ (frame v) 0) k (ground arith) out g
                  (Shrunk-held kernel_end s d own (pages_of oldsz) (pages_of newsz) v rest m s₂ own₂
                    g.space e only w))
          | inr (s', own', e', w) ↦
              Alloced-same kernel_end s₀ d own₀ (pages_of oldsz) (pages_of newsz)
                (alloc_from turns kernel_end s' d ((k + 1) * 4096) oldsz newsz)
                (after_map turns kernel_end d (k * 4096) oldsz newsz v (
                  mappages (taken s v rest (fill_frame s.mem (frame v) 0)) d (k * 4096) 4096
                    (frame v * 4096) 6))
                (ap (after_map turns kernel_end d (k * 4096) oldsz newsz v) e'
                  ∙ ap (λ x. alloc_from turns kernel_end s' d x oldsz newsz) step)
                (go s' own' (
                  Grown-page kernel_end s₀ d own₀ (pages_of oldsz) k s own v rest s' own' lo
                    (ground arith) g e w))
        ]
    where
      m : Blocks
      m = fill_frame s.mem (frame v) 0

      only : (f j : ℕ) → (frame v == f) ≡ false → fill_frame s.mem (frame v) 0 f j ≡ s.mem f j
      only f j h = fill_frame-other s.mem (frame v) 0 f j h

      r : in_range kernel_end (frame v) ≡ true
      r = let (a, b, c) = Spare-frame kernel_end s d own g.space v rest e in b

      at : v ≡ p2v (frame v)
      at = let (a, b, c) = Spare-frame kernel_end s d own g.space v rest e in ground arith

      step : add32 (k * 4096) 4096 ≡ (k + 1) * 4096
      step = ground arith

      absent : is_present (entry (taken s v rest m).mem d k) ≡ false
      absent =
          ap is_present (
            taken-entry kernel_end s d own g.space v k rest m e only (ground arith)
            ∙ g.kept k (ground arith) (ground arith))
          ∙ out k (ground arith) (ground arith)

      failed :
          (s₁ s₂ s₃ : Vm) (size : ℕ)
          → deallocuvm kernel_end s₁ d newsz oldsz ≡ some (size, s₂)
          → free_page kernel_end s₂ v ≡ some s₃
          → after_map turns kernel_end d (k * 4096) oldsz newsz v (some (false, s₁))
            ≡ some (false, s₃)
      failed s₁ s₂ s₃ size p q = ap (after_dealloc kernel_end v) p ∙ ap after_free q

  -- Enough turns get every page, or give all back.
  alloc_from_lem :
      (turns : ℕ) (s : Vm) (own : Owner) (k : ℕ)
      → newsz ≤ 2 ^ 31
      → newsz ≤ (turns + k) * 4096
      → pages_of oldsz ≤ k
      → k ≤ pages_of newsz
      → NoPages
      → Grown kernel_end s₀ d own₀ (pages_of oldsz) k s own
      → Alloced kernel_end s₀ d own₀
          (pages_of oldsz)
          (pages_of newsz)
          (alloc_from turns kernel_end s d (k * 4096) oldsz newsz)
  alloc_from_lem zero s own k small enough lo hi out g =
      let q : k ≡ pages_of newsz = omega arith in
      all_there s own (alloc-end zero kernel_end s d (k * 4096) oldsz newsz (ground arith))
        (subst (λ x. Grown kernel_end s₀ d own₀ (pages_of oldsz) x s own) q g)
  alloc_from_lem (suc turns) s own k small enough lo hi out g =
      elim (Bool-cases (ltb (k * 4096) newsz)) [
        | inr over ↦
            let q : k ≡ pages_of newsz = ground arith in
            all_there s own (alloc-end (suc turns) kernel_end s d (k * 4096) oldsz newsz over)
              (subst (λ x. Grown kernel_end s₀ d own₀ (pages_of oldsz) x s own) q g)
        | inl under ↦ elim (kalloc-cases s.kmem) [
          | inl (empty, e) ↦
              let (s₂, own₂, e', w) = deallocuvm_lem kernel_end s d own newsz oldsz g.space small in
              none_there s₂ own₂
                (alloc-turn turns kernel_end s d (k * 4096) oldsz newsz under
                  ∙ ap (after_kalloc turns kernel_end s d (k * 4096) oldsz newsz) e
                  ∙ ap after_full e')
                (gives_back s s₂ own own₂ k hi out g w)
          | inr (v, rest, e, q) ↦
              let (z, r, at) = Spare-frame kernel_end s d own g.space v rest e in
              let pa : sub32 v kernbase ≡ frame v * 4096 = ground arith in
              Alloced-same kernel_end s₀ d own₀ (pages_of oldsz) (pages_of newsz)
                (after_map turns kernel_end d (k * 4096) oldsz newsz v (
                  mappages (taken s v rest (fill_frame s.mem (frame v) 0)) d (k * 4096) 4096
                    (frame v * 4096) 6))
                (alloc_from (suc turns) kernel_end s d (k * 4096) oldsz newsz)
                (alloc-turn turns kernel_end s d (k * 4096) oldsz newsz under
                  ∙ ap (after_kalloc turns kernel_end s d (k * 4096) oldsz newsz) q
                  ∙ ap
                      (λ x. after_map turns kernel_end d (k * 4096) oldsz newsz v (
                        mappages (taken s v rest (fill_frame s.mem (frame v) 0)) d (k * 4096) 4096 x
                          6))
                      pa)
                (turn-page turns s own k v rest small (ground arith) lo out g e (λ s' own' g'.
                  alloc_from_lem turns s' own' (k + 1) small (omega arith) (omega arith)
                    (ground arith) out g'))
        ]
      ]

pub allocuvm-high :
    (kernel_end : ℕ) (s : Vm) (d oldsz newsz : ℕ)
    → leb kernbase newsz ≡ true
    → allocuvm kernel_end s d oldsz newsz ≡ some (0, s)
unfolding allocuvm
allocuvm-high kernel_end s d oldsz newsz h = rw h refl

allocuvm-run :
    (kernel_end : ℕ) (s s' : Vm) (ok : Bool) (d oldsz newsz : ℕ)
    → leb kernbase newsz ≡ false
    → ltb newsz oldsz ≡ false
    → alloc_from (newsz / 4096 + 1) kernel_end s d (round_up oldsz) oldsz newsz ≡ some (ok, s')
    → allocuvm kernel_end s d oldsz newsz ≡ some (if ok then newsz else 0, s')
unfolding allocuvm
allocuvm-run kernel_end s s' ok d oldsz newsz h h' e = rw (h, h', e) refl

-- In an address space whose tables and pages are its own and whose free frames are on the free
-- list, each once, for a growth below the kernel's addresses by pages that are not mapped,
-- `allocuvm` does not panic; either it returns the new size, and exactly the new pages are
-- mapped, for the user to read and to write, to different frames that were free and are clear;
-- or it returns 0 with the same pages mapped as before, and each frame that was free is on the
-- free list again or has become a table; in both cases the user's bytes are as before and the
-- address space stays well formed.
pub allocuvm_lem :
    (kernel_end : ℕ) (s : Vm) (d : ℕ) (own : Owner) (oldsz newsz : ℕ)
    → IsSpace kernel_end s d own
    → oldsz ≤ newsz
    → newsz < kernbase
    → ((n : ℕ)
        → n < 2 ^ 19
        → within (pages_of oldsz) (pages_of newsz) n ≡ true
        → is_present (entry s.mem d n) ≡ false)
    → (s' : Vm) × (own' : Owner) × (((allocuvm kernel_end s d oldsz newsz ≡ some (newsz, s'))
          × Grown kernel_end s d own (pages_of oldsz) (pages_of newsz) s' own')
        ⊎ ((allocuvm kernel_end s d oldsz newsz ≡ some (0, s'))
            × Unmoved kernel_end s d own s' own'))
allocuvm_lem kernel_end s d own oldsz newsz ok le small out =
    let first : round_up oldsz ≡ pages_of oldsz * 4096 = ground arith in
    let run = ap (λ x. alloc_from (newsz / 4096 + 1) kernel_end s d x oldsz newsz) first in
    elim (alloc_from_lem kernel_end s d own oldsz newsz ok (newsz / 4096 + 1) s own (pages_of oldsz)
      (omega arith) (omega arith) (omega arith) (omega arith) out
      (Grown-none kernel_end s d own (pages_of oldsz) ok)) [
        | all_there s' own' e g ↦ (
          s',
          own',
          inl (
            allocuvm-run kernel_end s s' true d oldsz newsz (ground arith) (ground arith) (run ∙ e),
            g,
          ),
        )
        | none_there s' own' e u ↦ (
          s',
          own',
          inr (
            allocuvm-run kernel_end s s' false d oldsz newsz (ground arith) (ground arith)
                (run ∙ e),
            u,
          ),
        )
      ]
