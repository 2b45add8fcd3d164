-- ===== src/Fs/Path/Names.antt =====
-- skipelem gives the names of a path one by one.
use os_project2_test.Prelude.{
  ℕ, zero, suc, ◌≡◌, ◌⊎◌, ◌≤◌, refl, ap, sym, ◌∙◌, subst, false, none, some, List, [], ◌∷◌, ◌==◌,
  leb, if◌then◌else◌, length, arith, Bool-cases, inl, inr,
}
use os_project2_test.Fs.Path.{take, skip_slashes, element, skipelem}

-- The names that the calls of `skipelem` give, for as long as there is one.
abbrev pub names : ℕ → List ℕ → List (List ℕ)
names zero path = []
names (suc fuel) path = elim (skipelem path) [
  | none ↦ []
  | some (name, rest) ↦ name ∷ names fuel rest
]

-- The parts of a path between slashes, empty ones included, the first one being `part` and what follows.
abbrev pub parts : List ℕ → List (List ℕ)
parts [] = [] ∷ []
parts (c ∷ cs) =
    if c == 47
    then [] ∷ parts cs
    else elim (parts cs) [ [] ↦ (c ∷ []) ∷ [] | p ∷ ps ↦ (c ∷ p) ∷ ps ]

-- The parts that are not empty, cut at 14 bytes.
abbrev pub filled : List (List ℕ) → List (List ℕ)
filled [] = []
filled (p ∷ ps) = elim p [ [] ↦ filled ps | c ∷ cs ↦ take 14 (c ∷ cs) ∷ filled ps ]

filled-skip_slashes : (path : List ℕ) → filled (parts (skip_slashes path)) ≡ filled (parts path)
unfolding skip_slashes
filled-skip_slashes [] = refl
filled-skip_slashes (c ∷ cs) = elim (Bool-cases (c == 47)) [
  | inl slash ↦ rw slash (filled-skip_slashes cs)
  | inr other ↦ rw (other, other) refl
]

-- The first part is what `element` passes over.
parts-element :
    (path : List ℕ)
    → (ps : List (List ℕ)) × (parts path ≡ (element path).0 ∷ ps)
      × (filled ps ≡ filled (parts (element path).1))
unfolding element
parts-element [] = ([], refl, refl)
parts-element (c ∷ cs) = elim (Bool-cases (c == 47)) [
  | inl slash ↦ (parts cs, rw slash refl, rw (slash, slash) refl)
  | inr other ↦ let (ps, e, f) = parts-element cs in (ps, rw (other, e) refl, rw other f)
]

take-all : (n : ℕ) (xs : List ℕ) → length xs ≤ n → take n xs ≡ xs
take-all zero [] h = refl
take-all zero (x ∷ xs) h = absurd (omega arith)
take-all (suc n) [] h = refl
take-all (suc n) (x ∷ xs) h = ap (λ ys. x ∷ ys) (take-all n xs (omega arith))

cut_name : (s : List ℕ) → (if leb 14 (length s) then take 14 s else s) ≡ take 14 s
cut_name s = elim (Bool-cases (leb 14 (length s))) [
  | inl long ↦ rw long refl
  | inr short ↦ rw short (sym (take-all 14 s (ground arith)))
]

length-skip_slashes : (path : List ℕ) → length (skip_slashes path) ≤ length path
unfolding skip_slashes
length-skip_slashes [] = omega arith
length-skip_slashes (c ∷ cs) = let rest = length-skip_slashes cs in ground arith

length-element : (path : List ℕ) → length (element path).1 ≤ length path
unfolding element
length-element [] = omega arith
length-element (c ∷ cs) = let rest = length-element cs in ground arith

-- No path, or one that does not start with a slash.
abbrev Bare : List ℕ → Type 0
Bare [] = Unit {0}
Bare (c ∷ cs) = (c == 47) ≡ false

skip_slashes-Bare : (path : List ℕ) → Bare (skip_slashes path)
unfolding skip_slashes
skip_slashes-Bare [] = tt
skip_slashes-Bare (c ∷ cs) = elim (Bool-cases (c == 47)) [
  | inl slash ↦ rw slash (skip_slashes-Bare cs)
  | inr other ↦ rw other other
]

List-cases : (xs : List ℕ) → (xs ≡ []) ⊎ ((c : ℕ) × (cs : List ℕ) × (xs ≡ c ∷ cs))
List-cases [] = inl refl
List-cases (c ∷ cs) = inr (c, cs, refl)

-- A call of `skipelem` that gives a name.
skipelem_step :
    (path : List ℕ) (c : ℕ) (cs : List ℕ)
    → skip_slashes path ≡ c ∷ cs
    → skipelem path ≡ some (take 14 (c ∷ (element cs).0), skip_slashes (element cs).1)
unfolding skipelem element
skipelem_step path c cs e =
    let bare : (c == 47) ≡ false = subst Bare e (skip_slashes-Bare path) in
    rw (e, skipelem, bare)
      (ap (λ s. some (s, skip_slashes (element cs).1)) (cut_name (c ∷ (element cs).0)))

skipelem_stop : (path : List ℕ) → skip_slashes path ≡ [] → skipelem path ≡ none
unfolding skipelem
skipelem_stop path e = rw (e, skipelem) refl

filled_step :
    (path : List ℕ) (c : ℕ) (cs : List ℕ)
    → skip_slashes path ≡ c ∷ cs
    → filled (parts path)
      ≡ take 14 (c ∷ (element cs).0) ∷ filled (parts (skip_slashes (element cs).1))
unfolding element
filled_step path c cs e =
    let bare : (c == 47) ≡ false = subst Bare e (skip_slashes-Bare path) in
    let (ps, q, f) = parts-element cs in
    sym (filled-skip_slashes path)
    ∙ ap (λ xs. filled (parts xs)) e
    ∙ rw (bare, q)
        (ap (λ ns. take 14 (c ∷ (element cs).0) ∷ ns)
          (f ∙ sym (filled-skip_slashes (element cs).1)))

-- With fuel for its length, the names that repeated calls of `skipelem` take from a path are its
-- parts between slashes that are not empty, each cut at 14 bytes, in order.
pub names_lem :
    (fuel : ℕ) (path : List ℕ) → length path ≤ fuel → names fuel path ≡ filled (parts path)
names_lem zero [] h = refl
names_lem zero (c ∷ cs) h = absurd (omega arith)
names_lem (suc fuel) path h = elim (List-cases (skip_slashes path)) [
  | inl e ↦
      let stop : skipelem path ≡ none = skipelem_stop path e in
      let empty : filled (parts path) ≡ [] =
        sym (filled-skip_slashes path) ∙ ap (λ xs. filled (parts xs)) e in
      ap (λ r. elim r [ none ↦ [] | some (name, rest) ↦ name ∷ names fuel rest ]) stop ∙ sym empty
  | inr (c, cs, e) ↦
      let short = length-skip_slashes path in
      let l : length (skip_slashes path) ≡ suc (length cs) = ap (length {A = ℕ}) e in
      let r = length-element cs in
      let r' = length-skip_slashes (element cs).1 in
      let rest = names_lem fuel (skip_slashes (element cs).1) (omega arith) in
      rw (skipelem_step path c cs e, names)
        (ap (λ ns. take 14 (c ∷ (element cs).0) ∷ ns) rest ∙ sym (filled_step path c cs e))
]
