-- ===== src/File/Refs.antt =====
-- A file's count is the number of references that are held to it.
use os_project2_test.Prelude.{
  ℕ, zero, suc, ◌+◌, ◌-◌, ◌^◌, ◌≡◌, ◌≤◌, ◌<◌, refl, ap, ◌∙◌, subst, false, none, some, List, [],
  ◌∷◌, ◌++◌, ◌==◌, if◌then◌else◌, get_elem?, modify, find_index, add32, sub32, lt_int, arith,
  Bool-cases, Option-cases, inl, inr, ◌⊎◌, length,
}
use os_project2_test.File.{File, fd_none, Closing, nothing, closing, filealloc, filedup, fileclose}

-- The count of entry `i`, 0 outside the table.
abbrev pub ref_at : List File → ℕ → ℕ
ref_at [] i = 0
ref_at (f ∷ fs) zero = f.ref
ref_at (f ∷ fs) (suc i) = ref_at fs i

-- How often a file stands in a list of references.
abbrev pub held : ℕ → List ℕ → ℕ
held i [] = 0
held i (j ∷ js) = if j == i then suc (held i js) else held i js

held-middle :
    (i v : ℕ) (before after : List ℕ)
    → held i (before ++ v ∷ after) ≡ held i (before ++ after) + held i (v ∷ [])
held-middle i v [] after = ground arith
held-middle i v (b ∷ before) after = ground (arith, held-middle i v before after)

held-le-length : (i : ℕ) (js : List ℕ) → held i js ≤ length js
held-le-length i [] = omega arith
held-le-length i (j ∷ js) = ground (arith, held-le-length i js)

-- Each count is the number of references.
abbrev pub Counted : List File → List ℕ → Type 0
Counted table refs = (i : ℕ) → ref_at table i ≡ held i refs

ref_at-get :
    (table : List File) (i : ℕ) (f : File) → get_elem? table i ≡ some f → ref_at table i ≡ f.ref
ref_at-get [] i f e = cc
ref_at-get (g ∷ table) zero f e = ground arith
ref_at-get (g ∷ table) (suc i) f e = ref_at-get table i f e

ref_at-absent : (table : List File) (i : ℕ) → get_elem? table i ≡ none → ref_at table i ≡ 0
ref_at-absent [] i e = refl
ref_at-absent (g ∷ table) zero e = cc
ref_at-absent (g ∷ table) (suc i) e = ref_at-absent table i e

ref_at-modify :
    (g : File → File) (table : List File) (i j : ℕ) (f : File)
    → get_elem? table i ≡ some f
    → ref_at (modify i g table) j ≡ (if i == j then (g f).ref else ref_at table j)
ref_at-modify g [] i j f e = cc
ref_at-modify g (h ∷ table) zero zero f e = ground arith
ref_at-modify g (h ∷ table) zero (suc j) f e = ground arith
ref_at-modify g (h ∷ table) (suc i) zero f e = ground arith
ref_at-modify g (h ∷ table) (suc i) (suc j) f e = ref_at-modify g table i j f e ∙ ground arith

free_entry :
    (table : List File) (i : ℕ)
    → find_index (λ (f : File). f.ref == 0) table ≡ some i
    → (f : File) × (get_elem? table i ≡ some f) × (f.ref ≡ 0)
unfolding find_index
free_entry [] i e = cc
free_entry (f ∷ fs) zero e = (f, refl, first f fs e)
  where
    first :
        (f : File) (fs : List File)
        → find_index (λ (f : File). f.ref == 0) (f ∷ fs) ≡ some 0
        → f.ref ≡ 0
    first f fs e = ground arith
free_entry (f ∷ fs) (suc i) e = free_entry fs i (ground arith)

-- A new file has a count of 0 before, and 1 afterwards.
pub filealloc-ref_at :
    (table table' : List File) (i j : ℕ)
    → filealloc table ≡ (some i, table')
    → (ref_at table i ≡ 0) × (ref_at table' j ≡ (if i == j then 1 else ref_at table j))
unfolding filealloc
filealloc-ref_at table table' i j e =
    elim (Option-cases (find_index (λ (f : File). f.ref == 0) table)) [
      | inl n ↦ ground arith
      | inr (i', found) ↦
          let (f, here, unused) = free_entry table i' found in
          let count = ref_at-get table i' f here in
          let new = ref_at-modify (λ f. record f { ref = 1 }) table i' j f here in ground arith
    ]

pub filealloc-cases :
    (table : List File)
    → (filealloc table ≡ (none, table))
      ⊎ ((i : ℕ) × (table' : List File) × (filealloc table ≡ (some i, table')))
unfolding filealloc
filealloc-cases table = elim (Option-cases (find_index (λ (f : File). f.ref == 0) table)) [
  | inl e ↦ inl (rw (e, filealloc) refl)
  | inr (i, e) ↦ inr (i, modify i (λ f. record f { ref = 1 }) table, rw (e, filealloc) refl)
]

pub ref_at-modify_same :
    (g : File → File) (table : List File) (i j : ℕ)
    → ((f : File) → (g f).ref ≡ f.ref)
    → ref_at (modify i g table) j ≡ ref_at table j
ref_at-modify_same g [] i j h = refl
ref_at-modify_same g (f ∷ table) zero zero h = h f
ref_at-modify_same g (f ∷ table) zero (suc j) h = refl
ref_at-modify_same g (f ∷ table) (suc i) zero h = refl
ref_at-modify_same g (f ∷ table) (suc i) (suc j) h = ref_at-modify_same g table i j h

pub filedup-ref_at :
    (table : List File) (i : ℕ)
    → 0 < ref_at table i
    → ref_at table i < 2 ^ 31
    → (table' : List File) × (filedup table i ≡ some table')
      × ((j : ℕ) → ref_at table' j ≡ (if i == j then add32 (ref_at table i) 1 else ref_at table j))
unfolding filedup
filedup-ref_at table i pos small = elim (Option-cases (get_elem? table i)) [
  | inl e ↦ absurd (omega (arith, ref_at-absent table i e))
  | inr (f, e) ↦
      let count = ref_at-get table i f e in
      let ok : lt_int f.ref 1 ≡ false = ground arith in
      (
        modify i (λ f. record f { ref = add32 f.ref 1 }) table,
        ground arith,
        λ j. ref_at-modify (λ f. record f { ref = add32 f.ref 1 }) table i j f e ∙ ground arith,
      )
]

-- The last reference closes the file.
pub fileclose-ref_at :
    (table : List File) (i : ℕ)
    → 0 < ref_at table i
    → ref_at table i < 2 ^ 31
    → (f : File) × (table' : List File) × (get_elem? table i ≡ some f)
      × (fileclose table i ≡ some (table', if ref_at table i == 1 then closing f else nothing))
      × ((j : ℕ) → ref_at table' j ≡ (if i == j then ref_at table i - 1 else ref_at table j))
unfolding fileclose
fileclose-ref_at table i pos small = elim (Option-cases (get_elem? table i)) [
  | inl e ↦ absurd (omega (arith, ref_at-absent table i e))
  | inr (f, e) ↦
      let count = ref_at-get table i f e in
      let ok : lt_int f.ref 1 ≡ false = ground arith in
      elim (Bool-cases (lt_int 0 (sub32 f.ref 1))) [
        | inl more ↦ (
          f,
          modify i (λ f. record f { ref = sub32 f.ref 1 }) table,
          e,
          ground arith,
          λ j. ref_at-modify (λ f. record f { ref = sub32 f.ref 1 }) table i j f e ∙ ground arith,
        )
        | inr last ↦ (
          f,
          modify i (λ f. record f { ref = 0; type = fd_none }) table,
          e,
          ground arith,
          λ j.
              ref_at-modify (λ f. record f { ref = 0; type = fd_none }) table i j f e
              ∙ ground arith,
        )
      ]
]

-- Calls on the file table by clients who duplicate and close only references they hold.
pub data Use (table : List File) (refs : List ℕ) : List File → List ℕ → Type 0 where
  done : Use table refs table refs
  allocates :
      {t t' : List File} {js : List ℕ} (i : ℕ)
      → Use table refs t js
      → filealloc t ≡ (some i, t')
      → Use table refs t' (i ∷ js)
  dups :
      {t t' : List File} {js : List ℕ} (i : ℕ)
      → Use table refs t js
      → 0 < held i js
      → length js + 1 < 2 ^ 31
      → filedup t i ≡ some t'
      → Use table refs t' (i ∷ js)
  closes :
      {t t' : List File} (before after : List ℕ) (i : ℕ) (c : Closing)
      → Use table refs t (before ++ i ∷ after)
      → length (before ++ i ∷ after) < 2 ^ 31
      → fileclose t i ≡ some (t', c)
      → Use table refs t' (before ++ after)

filedup-Counted :
    (t t' : List File) (js : List ℕ) (i : ℕ)
    → Counted t js
    → 0 < held i js
    → length js + 1 < 2 ^ 31
    → filedup t i ≡ some t'
    → Counted t' (i ∷ js)
filedup-Counted t t' js i c pos small e j =
    let (t₁, q, h) =
      filedup-ref_at t i (omega (arith, c i)) (omega (arith, c i, held-le-length i js)) in
    let same : t₁ ≡ t' = cc in
    let at =
      subst (λ u. ref_at u j ≡ (if i == j then add32 (ref_at t i) 1 else ref_at t j)) same (h j) in
    ground (arith, c i, c j, held-le-length i js)

fileclose-Counted :
    (t t' : List File) (before after : List ℕ) (i : ℕ) (closed : Closing)
    → Counted t (before ++ i ∷ after)
    → length (before ++ i ∷ after) < 2 ^ 31
    → fileclose t i ≡ some (t', closed)
    → Counted t' (before ++ after)
fileclose-Counted t t' before after i closed c small e j =
    let here = held-middle i i before after in
    let (f, t₁, _, q, h) =
      fileclose-ref_at t i (ground (arith, c i))
        (omega (arith, c i, held-le-length i (before ++ i ∷ after))) in
    let same : t₁ ≡ t' = cc in
    let at = subst (λ u. ref_at u j ≡ (if i == j then ref_at t i - 1 else ref_at t j)) same (h j) in
    ground (arith, c i, c j, held-middle j i before after)

-- If each file's count is the number of references held to it, it is so after any calls of
-- `filealloc`, `filedup` and `fileclose` on references that are held, fewer than 2^31 of them.
pub Use-Counted :
    {table : List File} {refs : List ℕ} {t : List File} {js : List ℕ}
    → Use table refs t js
    → Counted table refs
    → Counted t js
Use-Counted done c = c
Use-Counted (allocates {t} {t'} {js} i u e) c =
    λ j. let ih = Use-Counted u c in ground (arith, filealloc-ref_at t t' i j e, ih i, ih j)
Use-Counted (dups {t} {t'} {js} i u pos small e) c =
    filedup-Counted t t' js i (Use-Counted u c) pos small e
Use-Counted (closes {t} {t'} before after i closed u small e) c =
    fileclose-Counted t t' before after i closed (Use-Counted u c) small e

-- Where each count is the number of references held, fewer than 2^31, `fileclose` of a reference
-- that is held does not panic, and closes the pipe or the inode exactly when it was the last.
pub fileclose_last :
    (t : List File) (js : List ℕ) (i : ℕ)
    → Counted t js
    → 0 < held i js
    → length js < 2 ^ 31
    → (f : File) × (t' : List File) × (get_elem? t i ≡ some f)
      × (fileclose t i ≡ some (t', if held i js == 1 then closing f else nothing))
fileclose_last t js i c pos small =
    let (f, t', e, q, _) =
      fileclose-ref_at t i (omega (arith, c i)) (omega (arith, c i, held-le-length i js)) in
    (f, t', e, q ∙ ap (λ n. some (t', if n == 1 then closing f else nothing)) (c i))
