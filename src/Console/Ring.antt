-- ===== src/Console/Ring.antt =====
-- The bytes of the ring as a list.
use os_project2_test.Prelude.{
  ℕ, zero, suc, ◌+◌, ◌%◌, ◌≡◌, ◌<◌, refl, sym, ap, ap₂, ◌∙◌, false, List, [], ◌∷◌, ◌++◌, ◌==◌,
  add32, arith, length,
}
use os_project2_test.Console.{store_byte}

-- `n` bytes from index `i` on.
unfoldable pub ring : (ℕ → ℕ) → ℕ → ℕ → List ℕ
ring buf i zero = []
ring buf i (suc n) = buf (i % 128) ∷ ring buf (add32 i 1) n

pub ring-snoc :
    (buf : ℕ → ℕ) (i n : ℕ) → ring buf i (n + 1) ≡ ring buf i n ++ buf (add32 i n % 128) ∷ []
unfolding ring
ring-snoc buf i zero = let q : i % 128 ≡ add32 i 0 % 128 = omega arith in ap (λ k. buf k ∷ []) q
ring-snoc buf i (suc n) =
    let a : suc n + 1 ≡ suc (n + 1) = omega arith in
    let q : add32 (add32 i 1) n % 128 ≡ add32 i (suc n) % 128 = omega arith in
    ap (ring buf i) a
    ∙ ap (λ l. buf (i % 128) ∷ l)
        (ring-snoc buf (add32 i 1) n ∙ ap (λ k. ring buf (add32 i 1) n ++ buf k ∷ []) q)

pub length-ring : (buf : ℕ → ℕ) (i n : ℕ) → length (ring buf i n) ≡ n
unfolding ring
length-ring buf i zero = refl
length-ring buf i (suc n) = ap suc (length-ring buf (add32 i 1) n)

ring-mod : (buf : ℕ → ℕ) (i j n : ℕ) → i % 128 ≡ j % 128 → ring buf i n ≡ ring buf j n
unfolding ring
ring-mod buf i j zero h = refl
ring-mod buf i j (suc n) h =
    ap₂ (λ k l. buf k ∷ l) h (ring-mod buf (add32 i 1) (add32 j 1) n (omega (arith, h)))

pub ring-append :
    (buf : ℕ → ℕ) (i m n : ℕ) → ring buf i (m + n) ≡ ring buf i m ++ ring buf (add32 i m) n
unfolding ring
ring-append buf i zero n =
    let a : 0 + n ≡ n = omega arith in
    let q : add32 i 0 % 128 ≡ i % 128 = omega arith in
    ap (ring buf i) a ∙ ring-mod buf i (add32 i 0) n (sym q)
ring-append buf i (suc m) n =
    let a : suc m + n ≡ suc (m + n) = omega arith in
    ap (ring buf i) a
    ∙ ap (λ l. buf (i % 128) ∷ l)
        (ring-append buf (add32 i 1) m n
          ∙ ap (λ l. ring buf (add32 i 1) m ++ l)
              (ring-mod buf (add32 (add32 i 1) m) (add32 i (suc m)) n (omega arith)))

pub ring-store :
    (buf : ℕ → ℕ) (i n j c : ℕ)
    → ((k : ℕ) → k < n → (j == add32 i k % 128) ≡ false)
    → ring (store_byte buf j c) i n ≡ ring buf i n
unfolding ring
ring-store buf i zero j c h = refl
ring-store buf i (suc n) j c h =
    let here : (j == i % 128) ≡ false = let q = h 0 (omega arith) in ground arith in
    ap₂ (λ x l. x ∷ l) (rw here refl)
      (ring-store buf (add32 i 1) n j c (λ k l. let q = h (suc k) (omega arith) in ground arith))
