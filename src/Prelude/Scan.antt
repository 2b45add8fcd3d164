-- ===== src/Prelude/Scan.antt =====
-- Loops over a table that stop at the first entry passing a test:
-- `for(p = table; p < &table[N]; p++) if(test(p)) { ...; break; }`.
use Prim.Native.Nat.{ℕ, suc}
use mathlib.Core.Path.{◌≡◌, refl, ap}
use mathlib.Core.Logic.{◌⊎◌, inl, inr}
use mathlib.Core.Bool.{Bool, true, false}
use mathlib.Core.List.{List, [], ◌∷◌, ◌++◌}
use mathlib.Core.Option
use mathlib.Core.Option.{Option, none, some}
use native.Mathlib.Omega.{arith}
use os_project2_test.Prelude.Tests.{if◌then◌else◌, Bool-cases}
use os_project2_test.Prelude.Lists.{All}

module _ {ℓ} {A : Type ℓ} (test : A → Bool) where
  -- The first entry that passes.
  unfoldable pub find_first : List A → Option A
  find_first [] = none
  find_first (x ∷ xs) = if test x then some x else find_first xs

  -- Its index.
  unfoldable pub find_index : List A → Option ℕ
  find_index [] = none
  find_index (x ∷ xs) = if test x then some 0 else Option.map suc (find_index xs)

  -- The table with that entry changed; `none` if no entry passes.
  unfoldable pub update_first : (A → A) → List A → Option (List A)
  update_first f [] = none
  update_first f (x ∷ xs) =
      if test x then some (f x ∷ xs) else Option.map (λ ys. x ∷ ys) (update_first f xs)

  -- Every entry fails the test.
  abbrev pub NoneBefore : List A → Type 0
  NoneBefore = All (λ x. test x ≡ false)

  -- Where the first passing entry stands.
  pub record Split (xs : List A) : Type ℓ where
    pub before : List A
    pub hit : A
    pub after : List A
    pub parts : xs ≡ before ++ hit ∷ after
    pub passes : test hit ≡ true
    pub fails : NoneBefore before

  -- `update_first` fails exactly if no entry passes, and otherwise changes the first that does.
  pub update_first-cases :
      (f : A → A) (xs : List A)
      → (NoneBefore xs × (update_first f xs ≡ none))
        ⊎ ((s : Split xs) × (update_first f xs ≡ some (s.before ++ f s.hit ∷ s.after)))
  unfolding update_first
  update_first-cases f [] = inl (tt, refl)
  update_first-cases f (x ∷ xs) = elim (Bool-cases (test x)) [
    | inl e ↦ inr (
      record { before = []; hit = x; after = xs; parts = refl; passes = e; fails = tt },
      ground arith,
    )
    | inr e ↦ elim (update_first-cases f xs) [
      | inl (h, q) ↦ inl ((e, h), ground arith)
      | inr (s, q) ↦ inr (
        record {
          before = x ∷ s.before;
          hit = s.hit;
          after = s.after;
          parts = ap (λ ys. x ∷ ys) s.parts;
          passes = s.passes;
          fails = (e, s.fails);
        },
        ground arith,
      )
    ]
  ]

  pub find_first-none : (xs : List A) → NoneBefore xs → find_first xs ≡ none
  unfolding find_first
  find_first-none [] h = refl
  find_first-none (x ∷ xs) h = ground (arith, find_first-none xs h.1)
