-- ===== src/Sysfile/Counts/Open.antt =====
-- Pipes and files that are opened keep the counts.
use os_project2_test.Prelude.{
  ℕ, ◌+◌, ◌^◌, ◌≡◌, ◌≤◌, ◌<◌, refl, ap, ◌∙◌, Bool, true, false, Option, none, some, List, [], ◌∷◌,
  ◌==◌, modify, length, length-modify, arith, Bool-cases, Option-cases, inl, inr, minus_one, not,
  ◌&&◌, ◌/◌, ◌%◌,
}
use os_project2_test.File.{File, Closing, filealloc, filedup, fileclose}
use os_project2_test.File.Refs.{filealloc-cases, ref_at-modify_same}
use os_project2_test.Sysfile.{
  Ofile, World, Node, fdalloc, give_back, set_inode, open_pipe, close_both, place_pipe, sys_pipe,
  open_file, open_node, dup_all,
}
use os_project2_test.Sysfile.Counts.{
  one, uses, uses_all, slots, IsCounted, Holds, uses-modify, fdalloc-uses, Holds-alloc, Holds-dup,
  Holds-close,
}
use os_project2_test.Sysfile.Counts.Calls.{give_back-Holds, ends, open_pipe-Holds, IsCounted-small}

abbrev Placed : Type 0
Placed = Option (Option (ℕ × ℕ) × List Closing × World)

both-closed :
    (w : World) (r wr : ℕ) (t t' : List File) (c c' : Closing)
    → fileclose w.files r ≡ some (t, c)
    → fileclose t wr ≡ some (t', c')
    → close_both w r wr ≡ some (none, c ∷ c' ∷ [], record w { files = t' })
unfolding close_both
both-closed w r wr t t' c c' e e' = rw (e, close_both, e') refl

place-none :
    (w : World) (r wr : ℕ) → fdalloc w.ofile r ≡ none → place_pipe w r wr ≡ close_both w r wr
unfolding place_pipe
place-none w r wr e = rw (e, place_pipe) refl

place-one :
    (w : World) (r wr fd0 : ℕ) (o : Ofile)
    → fdalloc w.ofile r ≡ some (fd0, o)
    → fdalloc o wr ≡ none
    → place_pipe w r wr ≡ close_both (record w { ofile = modify fd0 (λ d. none) o }) r wr
unfolding place_pipe
place-one w r wr fd0 o e e' = rw (e, place_pipe, e') refl

place-both :
    (w : World) (r wr fd0 fd1 : ℕ) (o o' : Ofile)
    → fdalloc w.ofile r ≡ some (fd0, o)
    → fdalloc o wr ≡ some (fd1, o')
    → place_pipe w r wr ≡ some (some (fd0, fd1), [], record w { ofile = o' })
unfolding place_pipe
place-both w r wr fd0 fd1 o o' e e' = rw (e, place_pipe, e') refl

close_both-Holds :
    (w : World) (r wr : ℕ) (c : ℕ → ℕ)
    → Holds w.files (λ i. c i + one r i + one wr i)
    → ((i : ℕ) → c i + 2 < 2 ^ 31)
    → (cs : List Closing) × (t : List File) × (close_both w r wr
        ≡ some (none, cs, record w { files = t }))
      × Holds t c
close_both-Holds w r wr c h small =
    let (t, cl, e, h') =
      Holds-close w.files (λ i. c i + one wr i) r (λ i. omega (arith, h i))
        (let a = small r in ground arith) in
    let (t', cl', e', h'') = Holds-close t c wr h' (omega (arith, small wr)) in
    (_, t', both-closed w r wr t t' cl cl' e e', h'')

place_pipe-IsCounted :
    (w : World) (r wr : ℕ)
    → Holds w.files (λ i. uses i w.ofile + uses_all i w.others + one r i + one wr i)
    → ((i : ℕ) → uses i w.ofile + uses_all i w.others + 2 < 2 ^ 31)
    → length w.ofile + slots w.others + 2 < 2 ^ 31
    → (made : Option (ℕ × ℕ)) × (cs : List Closing) × (w' : World) × (place_pipe w r wr
        ≡ some (made, cs, w'))
      × IsCounted w'
place_pipe-IsCounted w r wr h small few = elim (Option-cases (fdalloc w.ofile r)) [
  | inl e ↦
      let (cs, t, e', h') =
        close_both-Holds w r wr (λ i. uses i w.ofile + uses_all i w.others) h small in
      (
        none,
        cs,
        record w { files = t },
        place-none w r wr e ∙ e',
        record { counts = h'; few = few },
      )
  | inr ((fd0, o), e) ↦
      let (new, len, at) = fdalloc-uses w.ofile o r fd0 e in
      elim (Option-cases (fdalloc o wr)) [
        | inl e' ↦
            let less : (i : ℕ) → uses i (modify fd0 (λ d. none) o) + one r i ≡ uses i o + 0 =
              λ i. uses-modify i fd0 (some r) none o at in
            let (cs, t, e'', h') =
              close_both-Holds (record w { ofile = modify fd0 (λ d. none) o }) r wr
                (λ i. uses i (modify fd0 (λ d. none) o) + uses_all i w.others)
                (λ i. omega (arith, h i, less i, new i))
                (λ i. omega (arith, small i, less i, new i)) in
            (
              none,
              cs,
              record w { ofile = modify fd0 (λ d. none) o; files = t },
              place-one w r wr fd0 o e e' ∙ e'',
              record {
                counts = h';
                few = omega (arith, len, length-modify fd0 (λ d. none) o, few);
              },
            )
        | inr ((fd1, o'), e') ↦
            let (new', len', at') = fdalloc-uses o o' wr fd1 e' in
            (
              some (fd0, fd1),
              [],
              record w { ofile = o' },
              place-both w r wr fd0 fd1 o o' e e',
              record {
                counts = λ i. omega (arith, h i, new i, new' i);
                few = omega (arith, len, len', few);
              },
            )
      ]
]

pipe-refused : (w : World) (page : Option ℕ) → sys_pipe w false page ≡ some (none, [], w)
unfolding sys_pipe
pipe-refused w page = refl

pipe-none :
    (w : World) (page : Option ℕ) (t : List File)
    → open_pipe w.files page ≡ some (none, t)
    → sys_pipe w true page ≡ some (none, [], record w { files = t })
unfolding sys_pipe
pipe-none w page t e = rw (e, sys_pipe) refl

pipe-made :
    (w : World) (page : Option ℕ) (r wr : ℕ) (t : List File)
    → open_pipe w.files page ≡ some (some (r, wr), t)
    → sys_pipe w true page ≡ place_pipe (record w { files = t }) r wr
unfolding sys_pipe
pipe-made w page r wr t e = rw (e, sys_pipe) refl

pub sys_pipe-IsCounted :
    (w : World) (args : Bool) (page : Option ℕ)
    → IsCounted w
    → (made : Option (ℕ × ℕ)) × (cs : List Closing) × (w' : World) × (sys_pipe w args page
        ≡ some (made, cs, w'))
      × IsCounted w'
sys_pipe-IsCounted w false page h = (none, [], w, pipe-refused w page, h)
sys_pipe-IsCounted w true page h =
    let (made, t, e, h') =
      open_pipe-Holds w.files (λ i. uses i w.ofile + uses_all i w.others) page h.counts
        (IsCounted-small w h) in
    place made t e h'
  where
    place :
        (made : Option (ℕ × ℕ)) (t : List File)
        → open_pipe w.files page ≡ some (made, t)
        → Holds t (λ i. uses i w.ofile + uses_all i w.others + ends made i)
        → (made' : Option (ℕ × ℕ)) × (cs : List Closing) × (w' : World) × (sys_pipe w true page
            ≡ some (made', cs, w'))
          × IsCounted w'
    place none t e h' = (
      none,
      [],
      record w { files = t },
      pipe-none w page t e,
      record { counts = λ i. omega (arith, h' i); few = h.few },
    )
    place (some (r, wr)) t e h' =
        let (made', cs, w', e', c) =
          place_pipe-IsCounted (record w { files = t }) r wr (λ i. omega (arith, h' i))
            (IsCounted-small w h) h.few in
        (made', cs, w', pipe-made w page r wr t e ∙ e', c)

open-none :
    (w : World) (omode ip : ℕ) (t : List File)
    → open_file w omode ip (none, t) ≡ some (minus_one, ip ∷ [], record w { files = t })
unfolding open_file
open-none w omode ip t = refl

open-full :
    (w : World) (omode ip f : ℕ) (t t' : List File)
    → fdalloc w.ofile f ≡ none
    → give_back t f ≡ some t'
    → open_file w omode ip (some f, t) ≡ some (minus_one, ip ∷ [], record w { files = t' })
unfolding open_file
open-full w omode ip f t t' e e' = rw (e, open_file, e') refl

open-done :
    (w : World) (omode ip f fd : ℕ) (o : Ofile) (t : List File)
    → fdalloc w.ofile f ≡ some (fd, o)
    → open_file w omode ip (some f, t)
      ≡ some (fd, [], record w { ofile = o; files = modify f (set_inode ip omode) t })
unfolding open_file
open-done w omode ip f fd o t e = rw (e, open_file) refl

open_file-IsCounted :
    (w : World) (omode ip : ℕ)
    → IsCounted w
    → (r : ℕ) × (put : List ℕ) × (w' : World) × (open_file w omode ip (filealloc w.files)
        ≡ some (r, put, w'))
      × IsCounted w'
open_file-IsCounted w omode ip h = elim (filealloc-cases w.files) [
  | inl e ↦ (minus_one, ip ∷ [], w, ap (open_file w omode ip) e ∙ open-none w omode ip w.files, h)
  | inr (f, t, e) ↦
      let h' = Holds-alloc w.files t (λ i. uses i w.ofile + uses_all i w.others) f h.counts e in
      elim (Option-cases (fdalloc w.ofile f)) [
        | inl full ↦
            let (t', e', h'') =
              give_back-Holds t (λ i. uses i w.ofile + uses_all i w.others) f h'
                (omega (arith, IsCounted-small w h f)) in
            (
              minus_one,
              ip ∷ [],
              record w { files = t' },
              ap (open_file w omode ip) e ∙ open-full w omode ip f t t' full e',
              record { counts = h''; few = h.few },
            )
        | inr ((fd, o), e') ↦
            let (new, len, at) = fdalloc-uses w.ofile o f fd e' in
            (
              fd,
              [],
              record w { ofile = o; files = modify f (set_inode ip omode) t },
              ap (open_file w omode ip) e ∙ open-done w omode ip f fd o t e',
              record {
                counts = λ i.
                    ref_at-modify_same (set_inode ip omode) t f i (λ g. refl)
                    ∙ omega (arith, h' i, new i);
                few = let k = h.few in omega (arith, len, k);
              },
            )
      ]
]

pub open_node-IsCounted :
    (w : World) (omode : ℕ) (node : Option Node)
    → IsCounted w
    → (r : ℕ) × (put : List ℕ) × (w' : World) × (open_node w omode node ≡ some (r, put, w'))
      × IsCounted w'
unfolding open_node
open_node-IsCounted w omode none h = (minus_one, [], w, refl, h)
open_node-IsCounted w omode (some n) h =
    elim (Bool-cases (not (omode / 512 % 2 == 1) && n.is_dir && not (omode == 0))) [
      | inl dir ↦ (minus_one, n.ip ∷ [], w, rw dir refl, h)
      | inr ok ↦
          let (r, put, w', e, c) = open_file-IsCounted w omode n.ip h in (r, put, w', rw ok e, c)
    ]

dup_all-step :
    (o : Ofile) (t t' : List File) (f : ℕ)
    → filedup t f ≡ some t'
    → dup_all (some f ∷ o) t ≡ dup_all o t'
unfolding dup_all
dup_all-step o t t' f e = rw (e, dup_all) refl

-- The child's descriptors in `fork`.
pub dup_all-Holds :
    (o : Ofile) (t : List File) (c : ℕ → ℕ)
    → Holds t c
    → ((f : ℕ) → uses f o ≤ c f)
    → ((f : ℕ) → c f + uses f o < 2 ^ 31)
    → (t' : List File) × (dup_all o t ≡ some t') × Holds t' (λ i. c i + uses i o)
unfolding dup_all uses
dup_all-Holds [] t c h le small = (t, refl, λ i. omega (arith, h i))
dup_all-Holds (none ∷ o) t c h le small =
    let (t', e, h') =
      dup_all-Holds o t c h (λ i. omega (arith, le i)) (λ i. omega (arith, small i)) in
    (t', e, λ i. omega (arith, h' i))
dup_all-Holds (some f ∷ o) t c h le small =
    let (t₁, e, h₁) =
      Holds-dup t c f h (let l = le f in ground arith) (let s = small f in ground arith) in
    let (t₂, e₂, h₂) =
      dup_all-Holds o t₁ (λ i. c i + one f i) h₁ (λ i. omega (arith, le i))
        (λ i. omega (arith, small i)) in
    (t₂, dup_all-step o t t₁ f e ∙ e₂, λ i. omega (arith, h₂ i))
