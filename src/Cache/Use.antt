-- ===== src/Cache/Use.antt =====
-- The cache from `binit` on: no block is ever in two buffers.
use os_project2_test.Prelude.{
  ℕ, zero, suc, ◌≡◌, ◌≤◌, ◌<◌, refl, ap, sym, ◌∙◌, Bool, true, Option, none, some, List, [], ◌∷◌,
  ◌==◌, sub32, modify, update_first, arith, Bool-cases, Option-cases, inl, inr,
}
use os_project2_test.Cache.{Buf, new_buf, push_all, binit, release, unlink, brelse, bget}
use os_project2_test.Cache.Unique.{copies, IsSmall, bget-Got}

-- What happens to the list: buffers are got and released, and their flags change. Device 0 is none.
pub data Use : List Buf → Type 0 where
  booted : Use binit
  gets :
      {bs bs' : List Buf} (dev blockno : ℕ) (x : Buf)
      → Use bs
      → 0 < dev
      → IsSmall bs
      → bget dev blockno bs ≡ some (x, bs')
      → Use bs'
  releases : {bs bs' : List Buf} (slot : ℕ) → Use bs → brelse true slot bs ≡ some bs' → Use bs'
  flags :
      {bs : List Buf} (i : ℕ) (valid dirty : Bool)
      → Use bs
      → Use (modify i (λ b. record b { valid = valid; dirty = dirty }) bs)

push_all-copies :
    (n slot d k : ℕ) (bs : List Buf) → 0 < d → copies d k (push_all n slot bs) ≡ copies d k bs
unfolding push_all
push_all-copies zero slot d k bs h = refl
push_all-copies (suc n) slot d k bs h =
    push_all-copies n (suc slot) d k (new_buf slot ∷ bs) h ∙ ground arith

push_all-IsSmall : (n slot : ℕ) (bs : List Buf) → IsSmall bs → IsSmall (push_all n slot bs)
unfolding push_all
push_all-IsSmall zero slot bs h = h
push_all-IsSmall (suc n) slot bs h =
    push_all-IsSmall n (suc slot) (new_buf slot ∷ bs) (omega arith, h)

pub binit-IsSmall : IsSmall binit
binit-IsSmall = push_all-IsSmall 30 0 [] tt

-- The copies in a buffer with a list, or in a list, if there is one.
abbrev copies_with : ℕ → ℕ → Option (Buf × List Buf) → ℕ
copies_with d k none = 0
copies_with d k (some (b, bs)) = copies d k (b ∷ bs)

abbrev copies_in : ℕ → ℕ → Option (List Buf) → ℕ
copies_in d k none = 0
copies_in d k (some bs) = copies d k bs

unlink-copies :
    (slot d k : ℕ) (bs rest : List Buf) (b : Buf)
    → unlink slot bs ≡ some (b, rest)
    → copies d k (b ∷ rest) ≡ copies d k bs
unfolding unlink
unlink-copies slot d k [] rest b e = cc
unlink-copies slot d k (c ∷ bs) rest b e = elim (Bool-cases (c.slot == slot)) [
  | inl hit ↦
      let same : ◌≡◌ {A = Option (Buf × List Buf)} (some (c, bs)) (some (b, rest)) = ground arith in
      sym (ap (copies_with d k) same)
  | inr miss ↦ elim (Option-cases (unlink slot bs)) [
    | inl q ↦ ground arith
    | inr ((y, ys), q) ↦
        let ih = unlink-copies slot d k bs ys y q in
        let same : ◌≡◌ {A = Option (Buf × List Buf)} (some (y, c ∷ ys)) (some (b, rest)) =
          ground arith in
        sym (ap (copies_with d k) same) ∙ ground arith
  ]
]

update_first-copies :
    (slot d k : ℕ) (bs bs' : List Buf)
    → update_first (λ (b : Buf). b.slot == slot) release bs ≡ some bs'
    → copies d k bs' ≡ copies d k bs
unfolding update_first
update_first-copies slot d k [] bs' e = cc
update_first-copies slot d k (c ∷ bs) bs' e = elim (Bool-cases (c.slot == slot)) [
  | inl hit ↦
      let same : some (release c ∷ bs) ≡ some bs' = ground arith in sym (ap (copies_in d k) same)
  | inr miss ↦ elim (Option-cases (update_first (λ (b : Buf). b.slot == slot) release bs)) [
    | inl q ↦ ground arith
    | inr (ys, q) ↦
        let same : some (c ∷ ys) ≡ some bs' = ground arith in
        let ih = update_first-copies slot d k bs ys q in
        sym (ap (copies_in d k) same) ∙ ground arith
  ]
]

brelse-copies :
    (slot d k : ℕ) (bs bs' : List Buf)
    → brelse true slot bs ≡ some bs'
    → copies d k bs' ≡ copies d k bs
unfolding brelse
brelse-copies slot d k bs bs' e = elim (Option-cases (unlink slot bs)) [
  | inl q ↦ ground arith
  | inr ((b, rest), q) ↦
      let moved = unlink-copies slot d k bs rest b q in
      elim (Bool-cases (sub32 b.refcnt 1 == 0)) [
        | inl last ↦ ground arith
        | inr more ↦ update_first-copies slot d k bs bs' (ground arith)
      ]
]

modify-copies :
    (i d k : ℕ) (valid dirty : Bool) (bs : List Buf)
    → copies d k (modify i (λ b. record b { valid = valid; dirty = dirty }) bs) ≡ copies d k bs
modify-copies i d k valid dirty [] = refl
modify-copies zero d k valid dirty (b ∷ bs) = ground arith
modify-copies (suc i) d k valid dirty (b ∷ bs) = ground (arith, modify-copies i d k valid dirty bs)

-- From `binit` on, as long as no reference count goes round, each block of a device other than 0
-- is in at most one buffer, whatever buffers are got and released and whatever flags change.
pub Use-copies : {bs : List Buf} → Use bs → (d k : ℕ) → 0 < d → copies d k bs ≤ 1
Use-copies booted d k h = omega (arith, push_all-copies 30 0 d k [] h)
Use-copies (gets {bs} {bs'} dev blockno x u pos small e) d k h =
    let (_, _, _, kept, _) =
      bget-Got dev blockno bs d k (x, bs') (Use-copies u dev blockno pos) small e in
    ground (arith, Use-copies u d k h)
Use-copies (releases {bs} {bs'} slot u e) d k h =
    omega (arith, Use-copies u d k h, brelse-copies slot d k bs bs' e)
Use-copies (flags {bs} i valid dirty u) d k h =
    omega (arith, Use-copies u d k h, modify-copies i d k valid dirty bs)
