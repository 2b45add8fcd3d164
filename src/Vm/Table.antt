-- ===== src/Vm/Table.antt =====
-- The entries of a page table, and whose each frame of memory is.
pub mod Owned
pub mod Change
pub mod Moves
use os_project2_test.Prelude.{
  ℕ, ◌+◌, ◌*◌, ◌/◌, ◌%◌, ◌-◌, ◌^◌, ◌≡◌, ◌≤◌, ◌<◌, refl, sym, ap, ◌∙◌, Bool, true, false, not, ◌&&◌,
  ◌||◌, List, [], ◌∷◌, ◌==◌, ltb, leb, if◌then◌else◌, arith, Bool-cases, inl, inr,
}
use os_project2_test.Kalloc.{kernbase, phystop}
use os_project2_test.Fs.{Blocks, Superblock, get_word, put_word}
use os_project2_test.Fs.Map.Owned.{get_word-same, get_word-put_word}
use os_project2_test.Vm.{Vm, pte_at, set_pte, is_present, pte_frame, frame}

pub pte_at-same :
    (m m' : Blocks) (t i : ℕ) → ((j : ℕ) → m' t j ≡ m t j) → pte_at m' t i ≡ pte_at m t i
unfolding pte_at
pte_at-same m m' t i h = get_word-same no_disk m m' t i h
  where
    no_disk : Superblock
    no_disk = record {
      size = 0;
      nblocks = 0;
      ninodes = 0;
      nlog = 0;
      logstart = 0;
      inodestart = 0;
      bmapstart = 0;
    }

pub set_pte-other : (m : Blocks) (t i e f j : ℕ) → (t == f) ≡ false → set_pte m t i e f j ≡ m f j
unfolding set_pte
set_pte-other m t i e f j h = rw h refl

pte_at-set_pte_self :
    (m : Blocks) (t i e j : ℕ)
    → e < 2 ^ 32
    → pte_at (set_pte m t i e) t j ≡ (if i == j then e else pte_at m t j)
unfolding pte_at set_pte
pte_at-set_pte_self m t i e j h =
    get_word-put_word no_disk m t i e j h ∙ ap (λ b. if b then e else get_word m t j) flip
  where
    no_disk : Superblock
    no_disk = record {
      size = 0;
      nblocks = 0;
      ninodes = 0;
      nlog = 0;
      logstart = 0;
      inodestart = 0;
      bmapstart = 0;
    }

    flip : (j == i) ≡ (i == j)
    flip = ground arith

pub pte_at-set_pte :
    (m : Blocks) (t i e f j : ℕ)
    → e < 2 ^ 32
    → pte_at (set_pte m t i e) f j ≡ (if t == f && i == j then e else pte_at m f j)
pte_at-set_pte m t i e f j h = elim (Bool-cases (t == f)) [
  | inl same ↦
      let q : t ≡ f = ground arith in
      ap (λ x. pte_at (set_pte m t i e) x j) (sym q)
      ∙ pte_at-set_pte_self m t i e j h
      ∙ ap (λ x. if i == j then e else pte_at m x j) q
      ∙ ap (λ b. if b && i == j then e else pte_at m f j) (sym same)
  | inr other ↦
      pte_at-same m (set_pte m t i e) f j (λ k. set_pte-other m t i e f k other)
      ∙ ap (λ b. if b && i == j then e else pte_at m f j) (sym other)
]

-- The entry for the `n`th page of addresses, 0 if it has no table.
unfoldable pub entry : Blocks → ℕ → ℕ → ℕ
entry m d n =
    if is_present (pte_at m d (n / 1024))
    then pte_at m (pte_frame (pte_at m d (n / 1024))) (n % 1024)
    else 0

pub entry-there :
    (m : Blocks) (d n : ℕ)
    → is_present (pte_at m d (n / 1024)) ≡ true
    → entry m d n ≡ pte_at m (pte_frame (pte_at m d (n / 1024))) (n % 1024)
unfolding entry
entry-there m d n h = rw h refl

pub entry-out :
    (m : Blocks) (d n : ℕ) → is_present (pte_at m d (n / 1024)) ≡ false → entry m d n ≡ 0
unfolding entry
entry-out m d n h = rw h refl

-- Whose a frame is: 0 is free, 1 another's, 2 the directory, 3 + i the `i`th table, and 2000 + n the
-- `n`th page of the user's addresses.
abbrev pub Owner : Type 0
Owner = ℕ → ℕ

abbrev pub give : Owner → ℕ → ℕ → Owner
give own f x g = if f == g then x else own g

abbrev pub is_table : ℕ → Bool
is_table x = leb 2 x && ltb x 2000

-- The frames that kfree takes.
abbrev pub in_range : ℕ → ℕ → Bool
in_range kernel_end f = leb kernel_end (f * 4096 + kernbase) && ltb (f * 4096) phystop

-- The pages of a list are free, and all different.
unfoldable pub is_spare : Owner → List ℕ → Bool
is_spare own [] = true
is_spare own (v ∷ l) =
    v == frame v * 4096 + kernbase && own (frame v) == 0 && is_spare (give own (frame v) 1) l

-- The page of a frame is in a list.
unfoldable pub on_list : ℕ → List ℕ → Bool
on_list f [] = false
on_list f (v ∷ l) = v == f * 4096 + kernbase || on_list f l

pub record IsSpace (kernel_end : ℕ) (s : Vm) (d : ℕ) (own : Owner) : Type 0 where
  pub above : kernbase < kernel_end
  pub dir : own d ≡ 2
  pub tables :
      (i : ℕ)
      → i < 1024
      → not (is_present (pte_at s.mem d i)) || own (pte_frame (pte_at s.mem d i)) == 3 + i ≡ true
  pub pages :
      (n : ℕ)
      → n < 2 ^ 19
      → not (is_present (entry s.mem d n)) || own (pte_frame (entry s.mem d n)) == 2000 + n ≡ true
  pub mapped :
      (f n : ℕ)
      → own f ≡ 2000 + n
      → ltb n (2 ^ 19) && is_present (entry s.mem d n) && pte_frame (entry s.mem d n) == f ≡ true
  pub range : (f : ℕ) → own f == 1 || in_range kernel_end f ≡ true
  pub spare : is_spare own s.kmem.freelist ≡ true
  pub listed : (f : ℕ) → not (own f == 0) || on_list f s.kmem.freelist ≡ true

-- Only whether a frame is free matters.
pub is_spare-same :
    (own own' : Owner) (l : List ℕ)
    → ((f : ℕ) → (own' f == 0) ≡ (own f == 0))
    → is_spare own' l ≡ is_spare own l
unfolding is_spare
is_spare-same own own' [] h = refl
is_spare-same own own' (v ∷ l) h =
    let head = h (frame v) in
    let rest =
      is_spare-same (give own (frame v) 1) (give own' (frame v) 1) l
        (λ f. let q = h f in ground arith) in
    rw (head, rest) refl

-- The entries depend on the directory and the tables alone.
pub entry-same :
    (m m' : Blocks) (d n : ℕ)
    → ((j : ℕ) → m' d j ≡ m d j)
    → (is_present (pte_at m d (n / 1024)) ≡ true
        → (j : ℕ)
        → m' (pte_frame (pte_at m d (n / 1024))) j ≡ m (pte_frame (pte_at m d (n / 1024))) j)
    → entry m' d n ≡ entry m d n
unfolding entry
entry-same m m' d n h t =
    rw (pte_at-same m m' d (n / 1024) h) (elim (Bool-cases (is_present (pte_at m d (n / 1024)))) [
      | inl there ↦
          rw there (pte_at-same m m' (pte_frame (pte_at m d (n / 1024))) (n % 1024) (t there))
      | inr out ↦ rw out refl
    ])
