-- ===== src/Sysfile/Counts/Calls.antt =====
-- Each call on descriptors keeps the counts, and never panics.
use os_project2_test.Prelude.{
  ℕ, ◌+◌, ◌^◌, ◌≡◌, ◌<◌, refl, ap, ◌∙◌, true, false, Option, none, some, List, modify,
  length-modify, arith, Option-cases, inl, inr, minus_one,
}
use os_project2_test.File.{File, Closing, filealloc, filedup, fileclose}
use os_project2_test.File.Refs.{filealloc-cases, ref_at-modify_same}
use os_project2_test.Sysfile.{
  Ofile, World, argfd, fdalloc, give_back, set_pipe, open_writer, open_reader, open_pipe, sys_dup,
  sys_close,
}
use os_project2_test.Sysfile.Counts.{
  one, uses, uses_all, IsCounted, Holds, uses-le, uses_all-le, uses-modify, fdalloc-uses,
  argfd-uses, uses-pos, Holds-alloc, Holds-dup, Holds-close,
}

give_back-some :
    (t t' : List File) (f : ℕ) (c : Closing)
    → fileclose t f ≡ some (t', c)
    → give_back t f ≡ some t'
unfolding give_back
give_back-some t t' f c e = rw (e, give_back) refl

pub give_back-Holds :
    (t : List File) (c : ℕ → ℕ) (f : ℕ)
    → Holds t (λ i. c i + one f i)
    → c f + 1 < 2 ^ 31
    → (t' : List File) × (give_back t f ≡ some t') × Holds t' c
give_back-Holds t c f h small =
    let (t', cl, e, h') = Holds-close t c f h small in (t', give_back-some t t' f cl e, h')

-- The new references of a pipe, if it is made.
abbrev pub ends : Option (ℕ × ℕ) → ℕ → ℕ
ends none i = 0
ends (some (r, w)) i = one r i + one w i

writer-none :
    (t t' : List File) (r : ℕ) (page : Option ℕ)
    → give_back t r ≡ some t'
    → open_writer r page (none, t) ≡ some (none, t')
unfolding open_writer
writer-none t t' r page e = rw (e, open_writer) refl

writer-no_page :
    (t t' t'' : List File) (r w : ℕ)
    → give_back t r ≡ some t'
    → give_back t' w ≡ some t''
    → open_writer r none (some w, t) ≡ some (none, t'')
unfolding open_writer
writer-no_page t t' t'' r w e e' = rw (e, open_writer, e') refl

open_writer-Holds :
    (t : List File) (c : ℕ → ℕ) (r : ℕ) (page : Option ℕ)
    → Holds t (λ i. c i + one r i)
    → ((i : ℕ) → c i + 2 < 2 ^ 31)
    → (made : Option (ℕ × ℕ)) × (t' : List File) × (open_writer r page (filealloc t)
        ≡ some (made, t'))
      × Holds t' (λ i. c i + ends made i)
unfolding open_writer
open_writer-Holds t c r page h small = elim (filealloc-cases t) [
  | inl e ↦
      let (t', e', h') = give_back-Holds t c r h (omega (arith, small r)) in
      (none, t', ap (open_writer r page) e ∙ writer-none t t' r page e', λ i. omega (arith, h' i))
  | inr (w, t₁, e) ↦ let h₁ = Holds-alloc t t₁ (λ i. c i + one r i) w h e in undo w t₁ e h₁ page
]
  where
    undo :
        (w : ℕ) (t₁ : List File)
        → filealloc t ≡ (some w, t₁)
        → Holds t₁ (λ i. c i + one r i + one w i)
        → (page : Option ℕ)
        → (made : Option (ℕ × ℕ)) × (t' : List File) × (open_writer r page (filealloc t)
            ≡ some (made, t'))
          × Holds t' (λ i. c i + ends made i)
    undo w t₁ e h₁ none =
        let self = small r in
        let (t₂, e₂, h₂) =
          give_back-Holds t₁ (λ i. c i + one w i) r (λ i. omega (arith, h₁ i)) (ground arith) in
        let (t₃, e₃, h₃) = give_back-Holds t₂ c w h₂ (omega (arith, small w)) in
        (
          none,
          t₃,
          ap (open_writer r none) e ∙ writer-no_page t₁ t₂ t₃ r w e₂ e₃,
          λ i. omega (arith, h₃ i),
        )
    undo w t₁ e h₁ (some p) = (
      some (r, w),
      modify w (set_pipe true p) (modify r (set_pipe false p) t₁),
      ap (open_writer r (some p)) e,
      λ i.
          ref_at-modify_same (set_pipe true p) (modify r (set_pipe false p) t₁) w i (λ f. refl)
          ∙ ref_at-modify_same (set_pipe false p) t₁ r i (λ f. refl)
          ∙ omega (arith, h₁ i),
    )

pub open_pipe-Holds :
    (t : List File) (c : ℕ → ℕ) (page : Option ℕ)
    → Holds t c
    → ((i : ℕ) → c i + 2 < 2 ^ 31)
    → (made : Option (ℕ × ℕ)) × (t' : List File) × (open_pipe t page ≡ some (made, t'))
      × Holds t' (λ i. c i + ends made i)
unfolding open_pipe open_reader
open_pipe-Holds t c page h small = elim (filealloc-cases t) [
  | inl e ↦ (none, t, ap (open_reader page) e, λ i. omega (arith, h i))
  | inr (r, t₁, e) ↦
      let (made, t', e', h') = open_writer-Holds t₁ c r page (Holds-alloc t t₁ c r h e) small in
      (made, t', ap (open_reader page) e ∙ e', h')
]

-- The room that the counts have.
pub IsCounted-small :
    (w : World) → IsCounted w → (i : ℕ) → uses i w.ofile + uses_all i w.others + 2 < 2 ^ 31
IsCounted-small w h i = let f = h.few in omega (arith, uses-le i w.ofile, uses_all-le i w.others)

dup-bad :
    (w : World) (arg : Option ℕ) → argfd w.ofile arg ≡ none → sys_dup w arg ≡ some (minus_one, w)
unfolding sys_dup
dup-bad w arg e = rw (e, sys_dup) refl

dup-full :
    (w : World) (arg : Option ℕ) (fd f : ℕ)
    → argfd w.ofile arg ≡ some (fd, f)
    → fdalloc w.ofile f ≡ none
    → sys_dup w arg ≡ some (minus_one, w)
unfolding sys_dup
dup-full w arg fd f e e' = rw (e, sys_dup, e') refl

dup-done :
    (w : World) (arg : Option ℕ) (fd f fd' : ℕ) (o : Ofile) (t : List File)
    → argfd w.ofile arg ≡ some (fd, f)
    → fdalloc w.ofile f ≡ some (fd', o)
    → filedup w.files f ≡ some t
    → sys_dup w arg ≡ some (fd', record w { ofile = o; files = t })
unfolding sys_dup
dup-done w arg fd f fd' o t e e' e'' = rw (e, sys_dup, e', e'') refl

close-bad :
    (w : World) (arg : Option ℕ)
    → argfd w.ofile arg ≡ none
    → sys_close w arg ≡ some (minus_one, Closing.nothing, w)
unfolding sys_close
close-bad w arg e = rw (e, sys_close) refl

close-done :
    (w : World) (arg : Option ℕ) (fd f : ℕ) (t : List File) (c : Closing)
    → argfd w.ofile arg ≡ some (fd, f)
    → fileclose w.files f ≡ some (t, c)
    → sys_close w arg ≡ some (0, c, record w { ofile = modify fd (λ d. none) w.ofile; files = t })
unfolding sys_close
close-done w arg fd f t c e e' = rw (e, sys_close, e') refl

-- A call of `sys_dup` on any argument.
pub sys_dup-IsCounted :
    (w : World) (arg : Option ℕ)
    → IsCounted w
    → (r : ℕ) × (w' : World) × (sys_dup w arg ≡ some (r, w')) × IsCounted w'
sys_dup-IsCounted w arg h = elim (Option-cases (argfd w.ofile arg)) [
  | inl e ↦ (minus_one, w, dup-bad w arg e, h)
  | inr ((fd, f), e) ↦ elim (Option-cases (fdalloc w.ofile f)) [
    | inl e' ↦ (minus_one, w, dup-full w arg fd f e e', h)
    | inr ((fd', o), e') ↦
        let (new, len, at) = fdalloc-uses w.ofile o f fd' e' in
        let pos = uses-pos w.ofile fd f (argfd-uses w.ofile arg fd f e) in
        let (t, e'', h') =
          Holds-dup w.files (λ i. uses i w.ofile + uses_all i w.others) f h.counts
            (omega (arith, pos)) (omega (arith, IsCounted-small w h f)) in
        (
          fd',
          record w { ofile = o; files = t },
          dup-done w arg fd f fd' o t e e' e'',
          record {
            counts = λ i. omega (arith, h' i, new i);
            few = let k = h.few in omega (arith, len, k);
          },
        )
  ]
]

pub sys_close-IsCounted :
    (w : World) (arg : Option ℕ)
    → IsCounted w
    → (r : ℕ) × (c : Closing) × (w' : World) × (sys_close w arg ≡ some (r, c, w')) × IsCounted w'
sys_close-IsCounted w arg h = elim (Option-cases (argfd w.ofile arg)) [
  | inl e ↦ (minus_one, Closing.nothing, w, close-bad w arg e, h)
  | inr ((fd, f), e) ↦
      let at = argfd-uses w.ofile arg fd f e in
      let less : (i : ℕ) → uses i (modify fd (λ d. none) w.ofile) + one f i ≡ uses i w.ofile + 0 =
        λ i. uses-modify i fd (some f) none w.ofile at in
      let (t, c, e', h') =
        Holds-close w.files (λ i. uses i (modify fd (λ d. none) w.ofile) + uses_all i w.others) f
          (λ i. omega (arith, h.counts i, less i)) (omega (arith, less f, IsCounted-small w h f)) in
      (
        0,
        c,
        record w { ofile = modify fd (λ d. none) w.ofile; files = t },
        close-done w arg fd f t c e e',
        record {
          counts = h';
          few = let k = h.few in omega (arith, length-modify fd (λ d. none) w.ofile, k);
        },
      )
]
