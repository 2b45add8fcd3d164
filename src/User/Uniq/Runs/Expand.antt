-- ===== src/User/Uniq/Runs/Expand.antt =====
-- What process_uniq prints of lines that are given as runs.
use os_project2_test.Prelude.{
  ℕ, zero, suc, ◌+◌, ◌^◌, ◌≡◌, ◌≢◌, ◌<◌, refl, sym, ap, ◌∙◌, Bool, true, false, ◌&&◌, List, [], ◌∷◌,
  ◌++◌, ◌==◌, ltb, if◌then◌else◌, length, arith, Bool-cases, inl, inr, replicate, ap₂,
}
use os_project2_test.User.Ulib.{strcmp}
use os_project2_test.User.Uniq.{Flags, strcasecmp, is_same, process_uniq}
use os_project2_test.User.Uniq.Runs.{
  unlines, are_lines, runs_from, runs, print_runs, Stops, process_uniq-runs,
}

-- The bytes of a text.
unfoldable pub is_text : List ℕ → Bool
is_text [] = true
is_text (c ∷ l) = ltb 0 c && ltb c 256 && is_text l

unfoldable pub are_texts : List (List ℕ) → Bool
are_texts [] = true
are_texts (l ∷ ls) = is_text l && are_texts ls

pub strcmp-same : (p q : List ℕ) → is_text p ≡ true → is_text q ≡ true → strcmp p q ≡ 0 → p ≡ q
unfolding strcmp is_text
strcmp-same [] [] tp tq e = refl
strcmp-same [] (d ∷ q) tp tq e = ground arith
strcmp-same (c ∷ p) [] tp tq e = ground arith
strcmp-same (c ∷ p) (d ∷ q) tp tq e = elim (Bool-cases (c == d)) [
  | inl at ↦
      let same : c ≡ d = ground arith in
      let rest = strcmp-same p q (ground arith) (ground arith) (ground arith) in
      ap₂ (λ x xs. x ∷ xs) same rest
  | inr off ↦ ground arith
]

-- The lines that runs stand for.
unfoldable pub expand : List (ℕ × List ℕ) → List (List ℕ)
expand [] = []
expand ((n, p) ∷ rs) = replicate n p ++ expand rs

same_text :
    (flags : Flags) (x p : List ℕ)
    → flags.ignore_case ≡ false
    → is_same flags x p ≡ true
    → strcmp x p ≡ 0
unfolding is_same
same_text flags x p i same =
    let e : (strcmp x p == 0) ≡ true =
      sym (ap (λ b. (if b then strcasecmp x p else strcmp x p) == 0) i) ∙ same in
    ground arith

-- No run is empty, and no two runs that follow each other have the same text.
abbrev Follows : List ℕ → List (ℕ × List ℕ) → Type 0
Follows p [] = Unit
Follows p ((n, q) ∷ rs) = q ≢ p

abbrev pub AreRuns : List (ℕ × List ℕ) → Type 0
AreRuns [] = Unit
AreRuns ((n, p) ∷ rs) = (0 < n) × Follows p rs × AreRuns rs

strcmp_self : (p : List ℕ) → is_text p ≡ true → strcmp p p ≡ 0
unfolding strcmp is_text
strcmp_self [] t = refl
strcmp_self (c ∷ p) t =
    let same : (c == c) ≡ true = ground arith in
    let rest = strcmp_self p (ground arith) in rw same rest

is_same_self :
    (flags : Flags) (p : List ℕ)
    → flags.ignore_case ≡ false
    → is_text p ≡ true
    → is_same flags p p ≡ true
unfolding is_same
is_same_self flags p i t = let e = strcmp_self p t in rw (i, e) refl

is_same_other :
    (flags : Flags) (q p : List ℕ)
    → flags.ignore_case ≡ false
    → is_text q ≡ true
    → is_text p ≡ true
    → q ≢ p
    → is_same flags q p ≡ false
is_same_other flags q p i tq tp d = elim (Bool-cases (is_same flags q p)) [
  | inl same ↦ absurd (d (strcmp-same q p tq tp (same_text flags q p i same)))
  | inr other ↦ other
]

are_texts_rest :
    (n : ℕ) (p : List ℕ) (ls : List (List ℕ))
    → are_texts (replicate n p ++ ls) ≡ true
    → are_texts ls ≡ true
unfolding are_texts
are_texts_rest zero p ls t = t
are_texts_rest (suc n) p ls t = are_texts_rest n p ls (ground arith)

runs_from-replicate :
    (flags : Flags) (p : List ℕ) (n m : ℕ) (ls : List (List ℕ))
    → is_same flags p p ≡ true
    → runs_from flags p n (replicate m p ++ ls) ≡ runs_from flags p (n + m) ls
unfolding runs_from
runs_from-replicate flags p n zero ls e =
    let q : n ≡ n + 0 = omega arith in ap (λ k. runs_from flags p k ls) q
runs_from-replicate flags p n (suc m) ls e =
    let q : n + 1 + m ≡ n + suc m = omega arith in
    rw e (runs_from-replicate flags p (n + 1) m ls e ∙ ap (λ k. runs_from flags p k ls) q)

runs_from-expand :
    (flags : Flags) (p : List ℕ) (n : ℕ) (rs : List (ℕ × List ℕ))
    → flags.ignore_case ≡ false
    → is_text p ≡ true
    → are_texts (expand rs) ≡ true
    → Follows p rs
    → AreRuns rs
    → runs_from flags p n (expand rs) ≡ (n, p) ∷ rs
unfolding runs_from expand are_texts
runs_from-expand flags p n [] i t ts d r = refl
runs_from-expand flags p n ((zero, q) ∷ rs) i t ts d r = absurd (omega (arith, r.0))
runs_from-expand flags p n ((suc m, q) ∷ rs) i t ts d r =
    let tq : is_text q ≡ true = ground arith in
    let texts : are_texts (replicate m q ++ expand rs) ≡ true = ground arith in
    let new = is_same_other flags q p i tq t d in
    let count : 1 + m ≡ suc m = omega arith in
    rw new (
      ap (λ k. (n, p) ∷ k)
        (runs_from-replicate flags q 1 m (expand rs) (is_same_self flags q i tq)
          ∙ runs_from-expand flags q (1 + m) rs i tq (are_texts_rest m q (expand rs) texts) r.1 r.2
          ∙ ap (λ k. (k, q) ∷ rs) count))

runs-expand :
    (flags : Flags) (rs : List (ℕ × List ℕ))
    → flags.ignore_case ≡ false
    → are_texts (expand rs) ≡ true
    → AreRuns rs
    → runs flags (expand rs) ≡ rs
unfolding runs expand are_texts
runs-expand flags [] i ts r = refl
runs-expand flags ((zero, q) ∷ rs) i ts r = absurd (omega (arith, r.0))
runs-expand flags ((suc m, q) ∷ rs) i ts r =
    let tq : is_text q ≡ true = ground arith in
    let texts : are_texts (replicate m q ++ expand rs) ≡ true = ground arith in
    let count : 1 + m ≡ suc m = omega arith in
    runs_from-replicate flags q 1 m (expand rs) (is_same_self flags q i tq)
    ∙ runs_from-expand flags q (1 + m) rs i tq (are_texts_rest m q (expand rs) texts) r.1 r.2
    ∙ ap (λ k. (k, q) ∷ rs) count

-- Without `-i`, for runs of lines, each of a line one time or more and no two that follow each
-- other of the same line, that written out are fewer than 2^31 lines, not empty and of fewer
-- than 1023 bytes other than newline and NUL, and then the end of the input or an empty line and
-- any more: `process_uniq` prints exactly these runs, each with its line and the number of times
-- as `-c` and `-d` ask.
pub process_uniq-expand :
    (flags : Flags) (rs : List (ℕ × List ℕ)) (tail : List ℕ)
    → flags.ignore_case ≡ false
    → AreRuns rs
    → are_texts (expand rs) ≡ true
    → are_lines (expand rs) ≡ true
    → Stops tail
    → length (expand rs) < 2 ^ 31
    → process_uniq (unlines (expand rs) ++ tail) flags ≡ print_runs flags rs
process_uniq-expand flags rs tail i r ts ls st b =
    process_uniq-runs (expand rs) tail flags ls st b
    ∙ ap (print_runs flags) (runs-expand flags rs i ts r)
