-- ===== src/Cache/Unique.antt =====
-- A block is in at most one buffer, and a buffer in use keeps its block.
use os_project2_test.Prelude.{
  ℕ, suc, ◌+◌, ◌^◌, ◌≡◌, ◌≤◌, ◌<◌, ◌↔◌, refl, subst, Bool, true, false, not, ◌&&◌, Option, none,
  some, List, [], ◌∷◌, ◌==◌, if◌then◌else◌, arith, All, Bool-cases, Option-cases, inl, inr,
}
use os_project2_test.Cache.{Buf, is_block, is_idle, find_cached, recycle, bget}

-- How many buffers hold a block, and how many of them are in use.
abbrev pub copies : ℕ → ℕ → List Buf → ℕ
copies d n [] = 0
copies d n (b ∷ bs) = if is_block d n b then suc (copies d n bs) else copies d n bs

abbrev pub busy : ℕ → ℕ → List Buf → ℕ
busy d n [] = 0
busy d n (b ∷ bs) = if is_block d n b && not (is_idle b) then suc (busy d n bs) else busy d n bs

abbrev pub IsSmall : List Buf → Type 0
IsSmall = All (λ (b : Buf). b.refcnt + 1 < 2 ^ 32)

busy-le-copies : (d n : ℕ) (bs : List Buf) → busy d n bs ≤ copies d n bs
busy-le-copies d n [] = omega arith
busy-le-copies d n (b ∷ bs) = ground (arith, busy-le-copies d n bs)

-- The block is that of (d, n).
abbrev pub is_same : ℕ → ℕ → ℕ → ℕ → Bool
is_same d n d' n' = d == d' && n == n'

find_cached-none : (d n : ℕ) (bs : List Buf) → find_cached d n bs ≡ none → copies d n bs ≡ 0
unfolding find_cached
find_cached-none d n [] e = refl
find_cached-none d n (b ∷ bs) e = elim (Option-cases (find_cached d n bs)) [
  | inl q ↦ ground (arith, find_cached-none d n bs q)
  | inr (_, q) ↦ ground arith
]

-- What a buffer that `bget` gives, with the list afterwards, says of the list before.
abbrev pub Got : ℕ → ℕ → ℕ → ℕ → List Buf → Buf × List Buf → Type 0
Got d n d' n' bs (x, bs') =
    (is_block d n x ≡ true)
    × (0 < x.refcnt)
    × (copies d n bs' ≡ 1)
    × (copies d' n' bs' ≤ (if is_same d n d' n' then 1 else copies d' n' bs))
    × (busy d' n' bs' ≡ (if is_same d n d' n' then 1 else busy d' n' bs))

abbrev pub IfSome : (Buf × List Buf → Type 0) → Option (Buf × List Buf) → Type 0
IfSome P none = Unit {0}
IfSome P (some r) = P r

find_cached-Got :
    (d n : ℕ) (bs : List Buf) (d' n' : ℕ)
    → copies d n bs ≤ 1
    → IsSmall bs
    → IfSome (Got d n d' n' bs) (find_cached d n bs)
unfolding find_cached
find_cached-Got d n [] d' n' one small = tt
find_cached-Got d n (b ∷ bs) d' n' one small = elim (Bool-cases (is_block d n b)) [
  | inl hit ↦
      let few = busy-le-copies d n bs in
      let room = small.0 in rw hit (hit, ground arith, ground arith, ground arith, ground arith)
  | inr miss ↦ elim (Option-cases (find_cached d n bs)) [
    | inl q ↦ rw (miss, q) tt
    | inr ((y, ys), q) ↦
        let ih : Got d n d' n' bs (y, ys) =
          subst (IfSome (Got d n d' n' bs)) q
            (find_cached-Got d n bs d' n' (ground arith) small.1) in
        rw (miss, q) (ih.0, ih.1, ground arith, ground arith, ground arith)
  ]
]

recycle-Got :
    (d n : ℕ) (bs : List Buf) (d' n' : ℕ)
    → copies d n bs ≡ 0
    → IfSome (Got d n d' n' bs) (recycle d n bs)
unfolding recycle
recycle-Got d n [] d' n' gone = tt
recycle-Got d n (b ∷ bs) d' n' gone = elim (Option-cases (recycle d n bs)) [
  | inl q ↦ elim (Bool-cases (is_idle b)) [
    | inl idle ↦
        let few = busy-le-copies d n bs in
        rw (q, idle) (ground arith, omega arith, ground arith, ground arith, ground arith)
    | inr used ↦ rw (q, used) tt
  ]
  | inr ((y, ys), q) ↦
      let ih : Got d n d' n' bs (y, ys) =
        subst (IfSome (Got d n d' n' bs)) q (recycle-Got d n bs d' n' (ground arith)) in
      rw q (ih.0, ih.1, ground arith, ground arith, ground arith)
]

bget-IfSome :
    (d n : ℕ) (bs : List Buf) (d' n' : ℕ)
    → copies d n bs ≤ 1
    → IsSmall bs
    → IfSome (Got d n d' n' bs) (bget d n bs)
unfolding bget
bget-IfSome d n bs d' n' one small = elim (Option-cases (find_cached d n bs)) [
  | inl q ↦ rw (q, bget) (recycle-Got d n bs d' n' (find_cached-none d n bs q))
  | inr (r, q) ↦
      rw (q, bget) (subst (IfSome (Got d n d' n' bs)) q (find_cached-Got d n bs d' n' one small))
]

-- If a block is in at most one buffer and no count is about to go round, a buffer that `bget`
-- gives holds the block, counts a reference and is the only one to hold it; every other block is
-- in no more buffers than before, and in as many that are in use.
pub bget-Got :
    (d n : ℕ) (bs : List Buf) (d' n' : ℕ) (r : Buf × List Buf)
    → copies d n bs ≤ 1
    → IsSmall bs
    → bget d n bs ≡ some r
    → Got d n d' n' bs r
bget-Got d n bs d' n' r one small e =
    subst (IfSome (Got d n d' n' bs)) e (bget-IfSome d n bs d' n' one small)

none-find_cached : (d n : ℕ) (bs : List Buf) → copies d n bs ≡ 0 → find_cached d n bs ≡ none
unfolding find_cached
none-find_cached d n [] e = refl
none-find_cached d n (b ∷ bs) e = elim (Bool-cases (is_block d n b)) [
  | inl hit ↦ ground arith
  | inr miss ↦ rw (miss, none-find_cached d n bs (ground arith)) refl
]

recycle-none :
    (d n : ℕ) (bs : List Buf) → recycle d n bs ≡ none → All (λ (b : Buf). is_idle b ≡ false) bs
unfolding recycle
recycle-none d n [] e = tt
recycle-none d n (b ∷ bs) e = elim (Option-cases (recycle d n bs)) [
  | inl q ↦ (ground arith, recycle-none d n bs q)
  | inr (_, q) ↦ ground arith
]

none-recycle :
    (d n : ℕ) (bs : List Buf) → All (λ (b : Buf). is_idle b ≡ false) bs → recycle d n bs ≡ none
unfolding recycle
none-recycle d n [] h = refl
none-recycle d n (b ∷ bs) h = rw (none-recycle d n bs h.1, h.0) refl

-- `bget` panics exactly when the block is in no buffer and every buffer is in use.
pub bget-none_iff :
    (d n : ℕ) (bs : List Buf)
    → (bget d n bs ≡ none) ↔ ((copies d n bs ≡ 0) × All (λ (b : Buf). is_idle b ≡ false) bs)
unfolding bget
bget-none_iff d n bs = elim (Option-cases (find_cached d n bs)) [
  | inl q ↦ (
    λ e. (find_cached-none d n bs q, recycle-none d n bs (ground arith)),
    λ h. rw (q, bget) (none-recycle d n bs h.1),
  )
  | inr (r, q) ↦ (λ e. ground arith, λ h. let e = none-find_cached d n bs h.0 in ground arith)
]
