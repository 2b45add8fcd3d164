-- ===== src/Pipe/Window.antt =====
-- The bytes in a pipe: the window of its ring that starts at `nread`.
use os_project2_test.Prelude.{
  ℕ, zero, suc, ◌+◌, ◌-◌, ◌%◌, ◌^◌, ◌<◌, ◌≤◌, ◌≡◌, refl, ap, ap₂, subst, ◌∙◌, List, [], ◌∷◌, ◌++◌,
  length, get_or, set, length-set, get_or-set_self, get_or-set_ne, add32, sub32, arith,
}
use os_project2_test.Pipe.{Pipe, put, front, drop_front}

abbrev pub window : List ℕ → ℕ → ℕ → List ℕ
window buf r zero = []
window buf r (suc n) = get_or buf (r % 512) 0 ∷ window buf (add32 r 1) n

abbrev pub count : Pipe → ℕ
count p = sub32 p.nwrite p.nread

abbrev pub contents : Pipe → List ℕ
contents p = window p.buf p.nread (count p)

pub record IsValid (p : Pipe) : Type 0 where
  pub storage : length p.buf ≡ 512
  pub read_word : p.nread < 2 ^ 32
  pub write_word : p.nwrite < 2 ^ 32
  pub bounded : count p ≤ 512

pub length-window : (buf : List ℕ) (r n : ℕ) → length (window buf r n) ≡ n
length-window buf r zero = refl
length-window buf r (suc n) = ap suc (length-window buf (add32 r 1) n)

-- A write ahead of the window does not change it, and extends it by the byte written.
window-set :
    (buf : List ℕ) (x r n d : ℕ)
    → r < 2 ^ 32
    → n ≤ d
    → d < 512
    → window (set buf ((r + d) % 2 ^ 32 % 512) x) r n ≡ window buf r n
window-set buf x r zero d h k l = refl
window-set buf x r (suc n) d h k l =
    let same : (add32 r 1 + (d - 1)) % 2 ^ 32 % 512 ≡ (r + d) % 2 ^ 32 % 512 = omega arith in
    ap₂ ◌∷◌ (get_or-set_ne buf x 0 (omega arith)) (
      subst (λ i. window (set buf i x) (add32 r 1) n ≡ window buf (add32 r 1) n) same
        (window-set buf x (add32 r 1) n (d - 1) (omega arith) (omega arith) (omega arith)))

window-snoc :
    (buf : List ℕ) (r n : ℕ)
    → r < 2 ^ 32
    → window buf r (suc n) ≡ window buf r n ++ get_or buf ((r + n) % 2 ^ 32 % 512) 0 ∷ []
window-snoc buf r zero h = ap (λ i. get_or buf i 0 ∷ []) (omega arith)
window-snoc buf r (suc n) h =
    ap (λ t. get_or buf (r % 512) 0 ∷ t)
      (window-snoc buf (add32 r 1) n (omega arith)
        ∙ ap (λ i. window buf (add32 r 1) n ++ get_or buf i 0 ∷ []) (omega arith))

pub put-IsValid : (p : Pipe) (x : ℕ) → IsValid p → count p < 512 → IsValid (put p x)
put-IsValid p x v h = record {
  storage = length-set p.buf (p.nwrite % 512) x ∙ v.storage;
  read_word = v.read_word;
  write_word = omega arith;
  bounded = omega arith;
}

-- `put` appends one byte.
pub contents-put :
    (p : Pipe) (x : ℕ) → IsValid p → count p < 512 → contents (put p x) ≡ contents p ++ x ∷ []
contents-put p x v h =
    ap (window (set p.buf (p.nwrite % 512) x) p.nread) one_more
    ∙ window-snoc (set p.buf (p.nwrite % 512) x) p.nread (count p) v.read_word
    ∙ ap₂ (λ s b. s ++ b ∷ []) old new
  where
    one_more : count (put p x) ≡ suc (count p)
    one_more = omega arith

    slot : (p.nread + count p) % 2 ^ 32 % 512 ≡ p.nwrite % 512
    slot = omega arith

    old : window (set p.buf (p.nwrite % 512) x) p.nread (count p) ≡ window p.buf p.nread (count p)
    old = rw (← slot) (window-set p.buf x p.nread (count p) (count p) v.read_word (omega arith) h)

    new : get_or (set p.buf (p.nwrite % 512) x) ((p.nread + count p) % 2 ^ 32 % 512) 0 ≡ x
    new = rw slot (get_or-set_self p.buf (p.nwrite % 512) x 0 (omega arith))

pub drop_front-IsValid : (p : Pipe) → IsValid p → 0 < count p → IsValid (drop_front p)
drop_front-IsValid p v h = omega arith

-- `front` is the oldest byte, which `drop_front` takes away.
pub contents-drop_front :
    (p : Pipe) → IsValid p → 0 < count p → contents p ≡ front p ∷ contents (drop_front p)
contents-drop_front p v h = ap (window p.buf p.nread) one_less
  where
    one_less : count p ≡ suc (count (drop_front p))
    one_less = omega arith
