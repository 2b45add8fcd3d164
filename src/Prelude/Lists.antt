-- ===== src/Prelude/Lists.antt =====
-- Lists measured and indexed by native numbers, under the library's names.
use Prim.Native.Nat.{ℕ, zero, suc, ◌+◌, ◌<◌, ◌≤◌}
use mathlib.Core.Path.{◌≡◌, refl, ap}
use mathlib.Core.Logic.{◌≢◌, ◌⊎◌, inl, inr}
use mathlib.Core.List.{List, [], ◌∷◌, ◌++◌, map}
use mathlib.Core.Option.{Option, none, some}
use native.Mathlib.Omega.{arith}

module _ {ℓ} {A : Type ℓ} where
  abbrev pub length : List A → ℕ
  length [] = 0
  length (x ∷ xs) = suc (length xs)

  abbrev pub get_elem? : List A → ℕ → Option A
  get_elem? [] i = none
  get_elem? (x ∷ xs) zero = some x
  get_elem? (x ∷ xs) (suc i) = get_elem? xs i

  abbrev pub get_or : List A → ℕ → A → A
  get_or [] i d = d
  get_or (x ∷ xs) zero d = x
  get_or (x ∷ xs) (suc i) d = get_or xs i d

  -- A write out of bounds changes nothing.
  abbrev pub set : List A → ℕ → A → List A
  set [] i v = []
  set (x ∷ xs) zero v = v ∷ xs
  set (x ∷ xs) (suc i) v = x ∷ set xs i v

  -- `table[i].f = ...`
  abbrev pub modify : ℕ → (A → A) → List A → List A
  modify i f [] = []
  modify zero f (x ∷ xs) = f x ∷ xs
  modify (suc i) f (x ∷ xs) = x ∷ modify i f xs

  abbrev pub replicate : ℕ → A → List A
  replicate zero a = []
  replicate (suc n) a = a ∷ replicate n a

  abbrev pub All {κ} : (A → Type κ) → List A → Type κ
  All P [] = Unit
  All P (x ∷ xs) = P x × All P xs

  pub length-append : (xs ys : List A) → length (xs ++ ys) ≡ length xs + length ys
  length-append [] ys = omega arith
  length-append (x ∷ xs) ys = omega (arith, length-append xs ys)

  pub length-set : (xs : List A) (i : ℕ) (v : A) → length (set xs i v) ≡ length xs
  length-set [] i v = refl
  length-set (x ∷ xs) zero v = refl
  length-set (x ∷ xs) (suc i) v = ap suc (length-set xs i v)

  pub get_or-set_self :
      (xs : List A) (i : ℕ) (v d : A) → i < length xs → get_or (set xs i v) i d ≡ v
  get_or-set_self [] i v d h = absurd (omega arith)
  get_or-set_self (x ∷ xs) zero v d h = refl
  get_or-set_self (x ∷ xs) (suc i) v d h = get_or-set_self xs i v d (omega arith)

  pub get_or-set_ne :
      (xs : List A) {i j : ℕ} (v d : A) → i ≢ j → get_or (set xs i v) j d ≡ get_or xs j d
  get_or-set_ne [] v d h = refl
  get_or-set_ne (x ∷ xs) {i = zero} {j = zero} v d h = absurd (h refl)
  get_or-set_ne (x ∷ xs) {i = zero} {j = suc j} v d h = refl
  get_or-set_ne (x ∷ xs) {i = suc i} {j = zero} v d h = refl
  get_or-set_ne (x ∷ xs) {i = suc i} {j = suc j} v d h = get_or-set_ne xs v d (λ e. h (ap suc e))

  pub All-append {κ} : (P : A → Type κ) (xs ys : List A) → All P xs → All P ys → All P (xs ++ ys)
  All-append P [] ys hx hy = hy
  All-append P (x ∷ xs) ys hx hy = (hx.0, All-append P xs ys hx.1 hy)

  pub length-replicate : (n : ℕ) (a : A) → length (replicate n a) ≡ n
  length-replicate zero a = refl
  length-replicate (suc n) a = ap suc (length-replicate n a)

  pub All-replicate {κ} : (P : A → Type κ) (n : ℕ) (a : A) → P a → All P (replicate n a)
  All-replicate P zero a h = tt
  All-replicate P (suc n) a h = (h, All-replicate P n a h)

  pub length-modify : (i : ℕ) (f : A → A) (xs : List A) → length (modify i f xs) ≡ length xs
  length-modify i f [] = refl
  length-modify zero f (x ∷ xs) = refl
  length-modify (suc i) f (x ∷ xs) = ap suc (length-modify i f xs)

  pub All-modify {κ} :
      (P : A → Type κ) (i : ℕ) (f : A → A) (xs : List A)
      → ((x : A) → P x → P (f x))
      → All P xs
      → All P (modify i f xs)
  All-modify P i f [] keep h = tt
  All-modify P zero f (x ∷ xs) keep h = (keep x h.0, h.1)
  All-modify P (suc i) f (x ∷ xs) keep h = (h.0, All-modify P i f xs keep h.1)

  pub All-map {κ} :
      (P : A → Type κ) (f : A → A) (xs : List A)
      → ((x : A) → P x → P (f x))
      → All P xs
      → All P (map f xs)
  All-map P f [] keep h = tt
  All-map P f (x ∷ xs) keep h = (keep x h.0, All-map P f xs keep h.1)

  -- The first `n` entries satisfy `P`.
  abbrev pub AllBelow {κ} : (A → Type κ) → ℕ → List A → Type κ
  AllBelow P zero xs = Unit
  AllBelow P (suc n) [] = Unit
  AllBelow P (suc n) (x ∷ xs) = P x × AllBelow P n xs

  pub AllBelow-map {κ} :
      (P : A → Type κ) (f : A → A) (n : ℕ) (xs : List A)
      → ((x : A) → P x → P (f x))
      → AllBelow P n xs
      → AllBelow P n (map f xs)
  AllBelow-map P f zero xs keep h = tt
  AllBelow-map P f (suc n) [] keep h = tt
  AllBelow-map P f (suc n) (x ∷ xs) keep h = (keep x h.0, AllBelow-map P f n xs keep h.1)

  -- Writing the next entry extends the part that satisfies `P`.
  pub AllBelow-modify {κ} :
      (P : A → Type κ) (f : A → A) (n : ℕ) (xs : List A)
      → ((x : A) → P (f x))
      → AllBelow P n xs
      → AllBelow P (suc n) (modify n f xs)
  AllBelow-modify P f n [] new h = tt
  AllBelow-modify P f zero (x ∷ xs) new h = (new x, tt)
  AllBelow-modify P f (suc n) (x ∷ xs) new h = (h.0, AllBelow-modify P f n xs new h.1)

  -- So does an entry that satisfies it already, or the end of the list.
  pub AllBelow-suc {κ} :
      (P : A → Type κ) (n : ℕ) (xs : List A)
      → ((x : A) → get_elem? xs n ≡ some x → P x)
      → AllBelow P n xs
      → AllBelow P (suc n) xs
  AllBelow-suc P n [] next h = tt
  AllBelow-suc P zero (x ∷ xs) next h = (next x refl, tt)
  AllBelow-suc P (suc n) (x ∷ xs) next h = (h.0, AllBelow-suc P n xs next h.1)

  pub AllBelow-All {κ} :
      (P : A → Type κ) (n : ℕ) (xs : List A) → length xs ≤ n → AllBelow P n xs → All P xs
  AllBelow-All P n [] l h = tt
  AllBelow-All P zero (x ∷ xs) l h = absurd (omega arith)
  AllBelow-All P (suc n) (x ∷ xs) l h = (h.0, AllBelow-All P n xs (omega arith) h.1)

  pub get_elem?-modify_self :
      (i : ℕ) (f : A → A) (xs : List A) {x : A}
      → get_elem? xs i ≡ some x
      → get_elem? (modify i f xs) i ≡ some (f x)
  get_elem?-modify_self i f [] e = cc
  get_elem?-modify_self zero f (y ∷ xs) e = cc
  get_elem?-modify_self (suc i) f (y ∷ xs) e = get_elem?-modify_self i f xs e

  pub get_elem?-modify_ne :
      (i : ℕ) (f : A → A) (xs : List A) {j : ℕ}
      → i ≢ j
      → get_elem? (modify i f xs) j ≡ get_elem? xs j
  get_elem?-modify_ne i f [] h = refl
  get_elem?-modify_ne zero f (y ∷ xs) {j = zero} h = absurd (h refl)
  get_elem?-modify_ne zero f (y ∷ xs) {j = suc j} h = refl
  get_elem?-modify_ne (suc i) f (y ∷ xs) {j = zero} h = refl
  get_elem?-modify_ne (suc i) f (y ∷ xs) {j = suc j} h =
      get_elem?-modify_ne i f xs (λ e. h (ap suc e))

  pub get_elem?-modify :
      (i j : ℕ) (f : A → A) (xs : List A) {x : A}
      → get_elem? xs j ≡ some x
      → (get_elem? (modify i f xs) j ≡ some x) ⊎ (get_elem? (modify i f xs) j ≡ some (f x))
  get_elem?-modify i j f [] e = inl e
  get_elem?-modify zero zero f (y ∷ xs) e = inr (cc)
  get_elem?-modify zero (suc j) f (y ∷ xs) e = inl e
  get_elem?-modify (suc i) zero f (y ∷ xs) e = inl e
  get_elem?-modify (suc i) (suc j) f (y ∷ xs) e = get_elem?-modify i j f xs e

  pub get_elem?-lt : (i : ℕ) (xs : List A) {x : A} → get_elem? xs i ≡ some x → i < length xs
  get_elem?-lt i [] e = cc
  get_elem?-lt zero (y ∷ xs) e = omega arith
  get_elem?-lt (suc i) (y ∷ xs) e = omega (arith, get_elem?-lt i xs e)

  pub get_elem?-some : (i : ℕ) (xs : List A) → i < length xs → (x : A) × (get_elem? xs i ≡ some x)
  get_elem?-some i [] h = absurd (omega arith)
  get_elem?-some zero (x ∷ xs) h = (x, refl)
  get_elem?-some (suc i) (x ∷ xs) h = get_elem?-some i xs (omega arith)

pub length-map {ℓ κ} :
    {A : Type ℓ} {B : Type κ} (f : A → B) (xs : List A) → length (map f xs) ≡ length xs
length-map f [] = refl
length-map f (x ∷ xs) = ap suc (length-map f xs)

pub get_elem?-map {ℓ κ} :
    {A : Type ℓ} {B : Type κ} (f : A → B) (i : ℕ) (xs : List A) {x : A}
    → get_elem? xs i ≡ some x
    → get_elem? (map f xs) i ≡ some (f x)
get_elem?-map f i [] e = cc
get_elem?-map f zero (y ∷ xs) e = cc
get_elem?-map f (suc i) (y ∷ xs) e = get_elem?-map f i xs e
