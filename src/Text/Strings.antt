-- ===== src/Text/Strings.antt =====
-- The string functions, against the text that a pointer shows: its bytes up to the first NUL.
use os_project2_test.Prelude.{
  ℕ, zero, suc, ◌+◌, ◌-◌, ◌^◌, ◌<◌, ◌≤◌, ◌≡◌, ◌↔◌, refl, ap, ◌∙◌, false, ◌==◌, if◌then◌else◌, arith,
  ◌⊎◌, inl, inr, Bool-cases, List, [], ◌∷◌, length, some,
}
use os_project2_test.Text.{Memory, write, strncmp, copy_string, safestrcpy, strlen_from, strlen}
use os_project2_test.Text.Move.{inside}

-- At most `n` bytes from `p` on, up to the first NUL.
unfoldable pub text : Memory → ℕ → ℕ → List ℕ
text m p zero = []
text m p (suc n) = let rest = text m (suc p) n in if m p == 0 then [] else m p ∷ rest

length-text : (m : Memory) (p n : ℕ) → length (text m p n) ≤ n
unfolding text
length-text m p zero = omega arith
length-text m p (suc n) = ground (arith, length-text m (suc p) n)

abbrev pub IsBytes : Memory → Type 0
IsBytes m = (a : ℕ) → m a < 2 ^ 8

strncmp→text : (m : Memory) (p q n : ℕ) → IsBytes m → strncmp m p q n ≡ 0 → text m p n ≡ text m q n
unfolding strncmp text
strncmp→text m p q zero w h = refl
strncmp→text m p q (suc n) w h = ground (arith, w p, w q, strncmp→text m (suc p) (suc q) n w)

text→strncmp : (m : Memory) (p q n : ℕ) → text m p n ≡ text m q n → strncmp m p q n ≡ 0
unfolding strncmp text
text→strncmp m p q zero h = refl
text→strncmp m p q (suc n) h = ground (arith, text→strncmp m (suc p) (suc q) n)

-- On a memory of bytes `strncmp` gives 0 exactly if the first n bytes of the two texts agree.
pub strncmp_iff :
    (m : Memory) (p q n : ℕ) → IsBytes m → (strncmp m p q n ≡ 0) ↔ (text m p n ≡ text m q n)
strncmp_iff m p q n w = (strncmp→text m p q n w, text→strncmp m p q n)

copy_string_outside :
    (m : Memory) (s t n b : ℕ) → inside s (suc n) b ≡ false → copy_string m s t n b ≡ m b
unfolding copy_string
copy_string_outside m s t zero b h = ground arith
copy_string_outside m s t (suc n) b h =
    ground (arith, copy_string_outside (write m s (m t)) (suc s) (suc t) n b)

-- Two memories that agree on the bytes read show the same text.
pub text_agree :
    (m m' : Memory) (p n : ℕ)
    → ((a : ℕ) → p ≤ a → a < p + n → m' a ≡ m a)
    → text m' p n ≡ text m p n
unfolding text
text_agree m m' p zero h = refl
text_agree m m' p (suc n) h = ground (
  arith,
  h p (omega arith) (omega arith),
  text_agree m m' (suc p) n (λ a l u. h a (omega arith) (omega arith)),
)

-- The source lies apart from the target.
abbrev pub Apart : ℕ → ℕ → ℕ → Type 0
Apart s t n = (s + n ≤ t) ⊎ (t + n ≤ s)

pub Apart-suc : (s t n : ℕ) → Apart s t (suc n) → Apart (suc s) (suc t) n
Apart-suc s t n (inl h) = inl (omega arith)
Apart-suc s t n (inr h) = inr (omega arith)

text-copy_string :
    (m : Memory) (s t n : ℕ) → Apart s t (suc n) → text (copy_string m s t n) s (suc n) ≡ text m t n
unfolding text copy_string
text-copy_string m s t zero apart = ground arith
text-copy_string m s t (suc n) apart =
    let ih = text-copy_string (write m s (m t)) (suc s) (suc t) n (Apart-suc s t (suc n) apart) in
    let rest = ih ∙ text_agree m (write m s (m t)) (suc t) n (λ a l u. ground arith) in
    let first = copy_string_outside (write m s (m t)) (suc s) (suc t) n s (ground arith) in
    elim (Bool-cases (m t == 0)) [ inl e ↦ ground arith | inr e ↦ ground (arith, first, rest) ]

-- For a target of n bytes, n above 0, apart from the source, `safestrcpy` leaves there the first
-- n - 1 bytes of the source's text, with a NUL within the n bytes, and changes no byte outside.
pub safestrcpy_lem :
    (m : Memory) (s t n b : ℕ)
    → 0 < n
    → Apart s t n
    → inside s n b ≡ false
    → (text (safestrcpy m s t n) s n ≡ text m t (n - 1))
      × (length (text (safestrcpy m s t n) s n) < n)
      × (safestrcpy m s t n b ≡ m b)
unfolding safestrcpy
safestrcpy_lem m s t zero b h apart o = absurd (omega arith)
safestrcpy_lem m s t (suc n) b h apart o =
    let same : text (copy_string m s t n) s (suc n) ≡ text m t n = text-copy_string m s t n apart in
    (
      same ∙ ap (text m t) (omega arith),
      omega (arith, ap length same, length-text m t n),
      copy_string_outside m s t n b o,
    )

strlen_from-text :
    (m : Memory) (s i n fuel : ℕ)
    → length (text m (s + i) fuel) ≡ n
    → n < fuel
    → strlen_from fuel m s i ≡ some (i + n)
unfolding strlen_from text
strlen_from-text m s i n zero h l = absurd (omega arith)
strlen_from-text m s i n (suc fuel) h l = elim (Bool-cases (m (s + i) == 0)) [
  | inl e ↦ ground arith
  | inr e ↦
      let here : length (text m (suc (s + i)) fuel) + 1 ≡ n = ground arith in
      let moved : s + (i + 1) ≡ suc (s + i) = omega arith in
      let next : length (text m (s + (i + 1)) fuel) ≡ n - 1 = rw moved (omega arith) in
      ground (arith, strlen_from-text m s (i + 1) (n - 1) fuel next (omega arith))
]

-- With more fuel than the text is long, `strlen` ends and gives the text's length.
pub strlen_lem :
    (m : Memory) (s fuel : ℕ)
    → length (text m s fuel) < fuel
    → strlen fuel m s ≡ some (length (text m s fuel))
strlen_lem m s fuel h =
    strlen_from-text m s 0 (length (text m s fuel)) fuel (ap (λ a. length (text m a fuel)) at_zero)
      h
    ∙ ap some (omega arith)
  where
    at_zero : s + 0 ≡ s
    at_zero = omega arith
