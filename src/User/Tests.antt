-- ===== src/User/Tests.antt =====
-- Examples for the user programs.
use os_project2_test.Prelude.{
  ℕ, ◌≡◌, refl, true, false, some, List, [], ◌∷◌, ◌++◌, length, arith, inl, inr, sub32, ap, get_or,
}
use os_project2_test.User.Ulib.{atoi}
use os_project2_test.User.Printf.{printint, number_buf, fill_digits, print_back}
use os_project2_test.User.Printf.Digits.{atoi-printint}
use os_project2_test.User.Uniq.{Flags, process_uniq}
use os_project2_test.User.Uniq.Runs.{
  is_plain, are_lines, unlines, runs, print_runs, process_uniq-runs,
}
use os_project2_test.User.Uniq.Runs.Expand.{is_text, are_texts, expand, process_uniq-expand}
use os_project2_test.User.Wc.{Counts, wc}
use os_project2_test.User.Wc.Words.{reads_of, text_of, words, newlines, wc_lem}

atoi-printint_example : atoi (printint 90210 10 true) ≡ 90210
atoi-printint_example = atoi-printint 90210 (omega arith)

-- -12
negative : printint (sub32 0 12) 10 true ≡ 45 ∷ 49 ∷ 50 ∷ []
unfolding printint number_buf fill_digits print_back
negative = refl

abbrev counting : Flags
counting = record { count_flag = true; ignore_case = false; duplicates = false }

-- "a", "a", "b"
abbrev three : List (List ℕ)
three = (97 ∷ []) ∷ (97 ∷ []) ∷ (98 ∷ []) ∷ []

-- An empty line follows, and then "c".
process_uniq-runs_example :
    process_uniq (unlines three ++ 10 ∷ 99 ∷ 10 ∷ []) counting
    ≡ print_runs counting (runs counting three)
unfolding is_plain are_lines
process_uniq-runs_example =
    process_uniq-runs three (10 ∷ 99 ∷ 10 ∷ []) counting refl (inr (99 ∷ 10 ∷ [], refl))
      (omega arith)

abbrev two_runs : List (ℕ × List ℕ)
two_runs = (2, 97 ∷ []) ∷ (1, 98 ∷ []) ∷ []

process_uniq-expand_example :
    process_uniq (unlines (expand two_runs) ++ []) counting ≡ print_runs counting two_runs
unfolding is_text are_texts is_plain are_lines expand
process_uniq-expand_example =
    process_uniq-expand counting two_runs [] refl
      (
        omega arith,
        (λ e. let q = ap (λ l. get_or l 0 0) e in omega (arith, q)),
        (omega arith, tt, tt),
      )
      refl refl (inl refl) (omega arith)

-- "a b" in two reads, with a word over both.
abbrev chunks : List (ℕ × List ℕ)
chunks = (97, []) ∷ (98, 32 ∷ 99 ∷ 10 ∷ []) ∷ []

wc_lem_example :
    (s : Counts) × (wc (reads_of chunks []) ≡ some s)
    × (s.l ≡ newlines (text_of chunks))
    × (s.w ≡ length (words (text_of chunks)))
    × (s.c ≡ length (text_of chunks))
unfolding text_of
wc_lem_example = wc_lem chunks [] (omega arith)
