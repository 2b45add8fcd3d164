-- ===== src/Sysfile/Counts.antt =====
-- A file's count is the number of descriptors, of all processes, that stand for it.
pub mod Calls
pub mod Open
pub mod Trace
use os_project2_test.Prelude.{
  ℕ, zero, suc, ◌+◌, ◌-◌, ◌^◌, ◌≡◌, ◌≤◌, ◌<◌, refl, sym, ap, ap₂, ◌∙◌, Bool, true, false, ◌||◌,
  Option, none, some, List, [], ◌∷◌, ◌++◌, ◌==◌, if◌then◌else◌, get_elem?, modify, find_index,
  length, length-modify, get_elem?-modify_self, arith, Bool-cases, Option-cases, inl, inr, add32,
  lt_int, le_int,
}
use os_project2_test.File.{File, Closing, filealloc, filedup, fileclose}
use os_project2_test.File.Refs.{ref_at, filealloc-ref_at, filedup-ref_at, fileclose-ref_at}
use os_project2_test.Sysfile.{Ofile, World, argfd, is_free, fdalloc, give_back, nofile}

abbrev pub one : ℕ → ℕ → ℕ
one f i = if f == i then 1 else 0

-- How many descriptors of a table stand for file `i`.
abbrev pub stands : Option ℕ → ℕ → ℕ
stands none i = 0
stands (some f) i = one f i

unfoldable pub uses : ℕ → Ofile → ℕ
uses i [] = 0
uses i (d ∷ ofile) = stands d i + uses i ofile

unfoldable pub uses_all : ℕ → List Ofile → ℕ
uses_all i [] = 0
uses_all i (o ∷ os) = uses i o + uses_all i os

unfoldable pub slots : List Ofile → ℕ
slots [] = 0
slots (o ∷ os) = length o + slots os

-- Each count is the number of descriptors, fewer than 2^31 - 2.
pub record IsCounted (w : World) : Type 0 where
  pub counts : (i : ℕ) → ref_at w.files i ≡ uses i w.ofile + uses_all i w.others
  pub few : length w.ofile + slots w.others + 2 < 2 ^ 31

-- The counts are those of a function.
abbrev pub Holds : List File → (ℕ → ℕ) → Type 0
Holds files c = (i : ℕ) → ref_at files i ≡ c i

pub uses-le : (i : ℕ) (o : Ofile) → uses i o ≤ length o
unfolding uses
uses-le i [] = omega arith
uses-le i (none ∷ o) = ground (arith, uses-le i o)
uses-le i (some f ∷ o) = ground (arith, uses-le i o)

pub uses_all-le : (i : ℕ) (os : List Ofile) → uses_all i os ≤ slots os
unfolding uses_all slots
uses_all-le i [] = omega arith
uses_all-le i (o ∷ os) = omega (arith, uses-le i o, uses_all-le i os)

pub uses-modify :
    (i fd : ℕ) (d d' : Option ℕ) (o : Ofile)
    → get_elem? o fd ≡ some d
    → uses i (modify fd (λ x. d') o) + stands d i ≡ uses i o + stands d' i
unfolding uses
uses-modify i fd d d' [] e = cc
uses-modify i zero d d' (x ∷ o) e =
    let same : x ≡ d = cc in let q = ap (λ y. stands y i) same in omega (arith, q)
uses-modify i (suc fd) d d' (x ∷ o) e = omega (arith, uses-modify i fd d d' o e)

find_free : (o : Ofile) (fd : ℕ) → find_index is_free o ≡ some fd → get_elem? o fd ≡ some none
unfolding find_index
find_free [] fd e = cc
find_free (none ∷ o) fd e = let q : 0 ≡ fd = cc in ap (get_elem? (none ∷ o)) (sym q)
find_free (some f ∷ o) fd e = elim (Option-cases (find_index is_free o)) [
  | inl n ↦ ground arith
  | inr (fd', found) ↦
      let q : suc fd' ≡ fd = ground arith in
      ap (get_elem? (some f ∷ o)) (sym q) ∙ find_free o fd' found
]

-- A new descriptor.
pub fdalloc-uses :
    (o o' : Ofile) (f fd : ℕ)
    → fdalloc o f ≡ some (fd, o')
    → ((i : ℕ) → uses i o' ≡ uses i o + one f i)
      × (length o' ≡ length o)
      × (get_elem? o' fd ≡ some (some f))
unfolding fdalloc
fdalloc-uses o o' f fd e = elim (Option-cases (find_index is_free o)) [
  | inl n ↦ ground arith
  | inr (fd', found) ↦
      let run : fdalloc o f ≡ some (fd', modify fd' (λ x. some f) o) = rw (found, fdalloc) refl in
      let p : fd' ≡ fd = cc in
      let q : modify fd' (λ x. some f) o ≡ o' = cc in
      let free = find_free o fd' found in
      (
        λ i. ap (uses i) (sym q) ∙ omega (arith, uses-modify i fd' none (some f) o free),
        ap length (sym q) ∙ length-modify fd' (λ x. some f) o,
        ap₂ get_elem? (sym q) (sym p) ∙ get_elem?-modify_self fd' (λ x. some f) o free,
      )
]

pub argfd-uses :
    (o : Ofile) (arg : Option ℕ) (fd f : ℕ)
    → argfd o arg ≡ some (fd, f)
    → get_elem? o fd ≡ some (some f)
unfolding argfd
argfd-uses o none fd f e = cc
argfd-uses o (some n) fd f e = elim (Bool-cases (lt_int n 0 || le_int nofile n)) [
  | inl bad ↦ ground arith
  | inr good ↦ at (get_elem? o n) refl (sym (rw (good, argfd) refl) ∙ e)
]
  where
    at :
        (d : Option (Option ℕ))
        → get_elem? o n ≡ d
        → ◌≡◌ {A = Option (ℕ × ℕ)}
            (elim d as (λ k. Option (ℕ × ℕ)) [ some (some f) ↦ some (n, f) | _ ↦ none ])
            (some (fd, f))
        → get_elem? o fd ≡ some (some f)
    at none q r = cc
    at (some none) q r = cc
    at (some (some g)) q r =
        let p : n ≡ fd = cc in
        let p' : g ≡ f = cc in ap (get_elem? o) (sym p) ∙ q ∙ ap (λ x. some (some x)) p'

pub uses-pos : (o : Ofile) (fd f : ℕ) → get_elem? o fd ≡ some (some f) → 0 < uses f o
uses-pos o fd f e = ground (arith, uses-modify f fd (some f) none o e)

-- filealloc, filedup and fileclose on counts.
pub Holds-alloc :
    (t t' : List File) (c : ℕ → ℕ) (f : ℕ)
    → Holds t c
    → filealloc t ≡ (some f, t')
    → Holds t' (λ i. c i + one f i)
Holds-alloc t t' c f h e i = let q = filealloc-ref_at t t' f i e in ground (arith, q, h i, h f)

pub Holds-dup :
    (t : List File) (c : ℕ → ℕ) (f : ℕ)
    → Holds t c
    → 0 < c f
    → c f + 1 < 2 ^ 31
    → (t' : List File) × (filedup t f ≡ some t') × Holds t' (λ i. c i + one f i)
Holds-dup t c f h pos small =
    let (t', e, q) = filedup-ref_at t f (omega (arith, h f)) (omega (arith, h f)) in
    (t', e, λ i. ground (arith, q i, h i, h f))

pub Holds-close :
    (t : List File) (c : ℕ → ℕ) (f : ℕ)
    → Holds t (λ i. c i + one f i)
    → c f + 1 < 2 ^ 31
    → (t' : List File) × (cl : Closing) × (fileclose t f ≡ some (t', cl)) × Holds t' c
Holds-close t c f h small =
    let self : one f f ≡ 1 = ground arith in
    let (file, t', at, e, q) = fileclose-ref_at t f (omega (arith, h f)) (omega (arith, h f)) in
    (t', _, e, λ i. ground (arith, q i, h i, h f))
