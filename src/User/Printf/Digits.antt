-- ===== src/User/Printf/Digits.antt =====
-- The digits that are printed, and the room that they take.
use os_project2_test.Prelude.{
  ℕ, zero, suc, ◌+◌, ◌-◌, ◌*◌, ◌/◌, ◌%◌, ◌^◌, ◌≡◌, ◌≤◌, ◌<◌, refl, ap, ◌∙◌, Bool, true, false, ◌&&◌,
  List, [], ◌∷◌, ◌++◌, ◌==◌, sub32, lt_int, arith, Bool-cases, inl, inr, length,
}
use os_project2_test.User.Ulib.{is_digit, atoi_from, atoi}
use os_project2_test.User.Printf.{digit, fill_digits, print_back, number_buf, printint}

atoi-digit :
    (d n : ℕ) (after : List ℕ)
    → d < 10
    → n * 10 + d < 2 ^ 32
    → atoi_from (digit d ∷ after) n ≡ atoi_from after (n * 10 + d)
unfolding atoi_from
atoi-digit d n after h b =
    let e : is_digit (digit d) ≡ true = ground arith in
    let q : (n * 10 + digit d - 48) % 2 ^ 32 ≡ n * 10 + d = ground arith in rw (e, q) refl

abbrev pow : ℕ → ℕ → ℕ
pow base zero = 1
pow base (suc n) = base * pow base n

-- Enough turns print all digits, and atoi reads them back.
atoi-fill_digits :
    (turns x : ℕ) (after : List ℕ)
    → x < pow 10 turns
    → x < 2 ^ 32
    → 0 < turns
    → atoi_from (print_back (fill_digits turns x 10) after) 0 ≡ atoi_from after x
unfolding fill_digits print_back
atoi-fill_digits zero x after h b p = ground arith
atoi-fill_digits (suc turns) x after h b p = elim (Bool-cases (x / 10 == 0)) [
  | inl last ↦
      let q : 0 * 10 + x % 10 ≡ x = ground arith in
      rw last (atoi-digit (x % 10) 0 after (omega arith) (omega arith) ∙ ap (atoi_from after) q)
  | inr more ↦
      let q : x / 10 * 10 + x % 10 ≡ x = omega arith in
      rw more (
        atoi-fill_digits turns (x / 10) (digit (x % 10) ∷ after) (omega arith) (omega arith)
          (some_turns turns h more)
        ∙ atoi-digit (x % 10) (x / 10) after (omega arith) (omega arith)
        ∙ ap (atoi_from after) q)
]
  where
    some_turns : (turns : ℕ) → x < pow 10 (suc turns) → (x / 10 == 0) ≡ false → 0 < turns
    some_turns zero h more = ground arith
    some_turns (suc n) h more = omega arith

-- For a number below 2^31, `atoi` of what `printint` prints of it, signed and to base 10, is the
-- number.
pub atoi-printint : (x : ℕ) → x < 2 ^ 31 → atoi (printint x 10 true) ≡ x
unfolding atoi printint number_buf atoi_from
atoi-printint x h =
    let pos : lt_int x 0 ≡ false = ground arith in
    rw pos (atoi-fill_digits 32 x [] (omega arith) (omega arith) (omega arith))

length-fill_digits :
    (base : ℕ)
    → ((x p : ℕ) → x < base * p → x / base < p)
    → (turns x k : ℕ) → x < pow base k
    → 0 < k
    → length (fill_digits turns x base) ≤ k
unfolding fill_digits
length-fill_digits base divides zero x k h p = omega arith
length-fill_digits base divides (suc turns) x zero h p = ground arith
length-fill_digits base divides (suc turns) x (suc k) h p = elim (Bool-cases (x / base == 0)) [
  | inl last ↦ rw last (omega arith)
  | inr more ↦
      let less = divides x (pow base k) h in
      rw more (
        let ih = length-fill_digits base divides turns (x / base) k less (some_left k less more) in
        omega (arith, ih))
]
  where
    some_left : (k : ℕ) → x / base < pow base k → (x / base == 0) ≡ false → 0 < k
    some_left zero less more = ground arith
    some_left (suc n) less more = omega arith

length-append_one : (xs : List ℕ) (c : ℕ) → length (xs ++ c ∷ []) ≡ length xs + 1
length-append_one [] c = refl
length-append_one (x ∷ xs) c = omega (arith, length-append_one xs c)

-- For any 32-bit number, `printint` stores at most 11 bytes to base 10 and at most 9 to base 16,
-- in a buffer of 16.
pub number_buf-fits :
    (xx : ℕ) (sgn : Bool)
    → xx < 2 ^ 32
    → (length (number_buf xx 10 sgn) ≤ 11) × (length (number_buf xx 16 sgn) ≤ 9)
unfolding number_buf
number_buf-fits xx sgn h = (
  elim (Bool-cases (sgn && lt_int xx 0)) [
    | inl neg ↦ rw neg (
        omega (
          arith,
          length-append_one (fill_digits 32 (sub32 0 xx) 10) 45,
          length-fill_digits 10 (λ x p k. omega arith) 32 (sub32 0 xx) 10 (omega arith)
              (omega arith),
        ))
    | inr pos ↦ rw pos (
        omega (
          arith,
          length-fill_digits 10 (λ x p k. omega arith) 32 xx 10 (omega arith) (omega arith),
        ))
  ],
  elim (Bool-cases (sgn && lt_int xx 0)) [
    | inl neg ↦ rw neg (
        omega (
          arith,
          length-append_one (fill_digits 32 (sub32 0 xx) 16) 45,
          length-fill_digits 16 (λ x p k. omega arith) 32 (sub32 0 xx) 8 (omega arith)
              (omega arith),
        ))
    | inr pos ↦ rw pos (
        omega
          (arith, length-fill_digits 16 (λ x p k. omega arith) 32 xx 8 (omega arith) (omega arith)))
  ],
)
