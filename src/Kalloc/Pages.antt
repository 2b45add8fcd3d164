-- ===== src/Kalloc/Pages.antt =====
-- Who holds which page: no page is lost, and none is given out twice.
use os_project2_test.Prelude.{
  ℕ, suc, ◌+◌, ◌≡◌, refl, some, List, [], ◌∷◌, ◌++◌, ◌==◌, if◌then◌else◌, arith, Bool-cases, inl,
  inr,
}
use os_project2_test.Kalloc.{Kmem, kfree, kalloc, is_bad}

-- How often a page stands in a list.
abbrev pub times : ℕ → List ℕ → ℕ
times x [] = 0
times x (y ∷ ys) = if y == x then suc (times x ys) else times x ys

times-middle :
    (x v : ℕ) (before after : List ℕ)
    → times x (before ++ v ∷ after) ≡ times x (before ++ after) + times x (v ∷ [])
times-middle x v [] after = ground arith
times-middle x v (b ∷ before) after = ground (arith, times-middle x v before after)

-- Calls of the allocator, with the pages that its clients hold: a client frees only what is held.
pub data Use (kernel_end : ℕ) : Kmem → List ℕ → Kmem → List ℕ → Type 0 where
  done : {k : Kmem} {held : List ℕ} → Use kernel_end k held k held
  allocates :
      {k k₁ k₂ : Kmem} {held held₁ : List ℕ} (v : ℕ)
      → Use kernel_end k held k₁ held₁
      → kalloc k₁ ≡ (some v, k₂)
      → Use kernel_end k held k₂ (v ∷ held₁)
  frees :
      {k k₁ k₂ : Kmem} {held : List ℕ} (before after : List ℕ) (v : ℕ)
      → Use kernel_end k held k₁ (before ++ v ∷ after)
      → kfree kernel_end k₁ v ≡ some k₂
      → Use kernel_end k held k₂ (before ++ after)

kalloc-times :
    (x v : ℕ) (k k' : Kmem)
    → kalloc k ≡ (some v, k')
    → times x k.freelist ≡ times x k'.freelist + times x (v ∷ [])
unfolding kalloc
kalloc-times x v k k' e = taken k.freelist refl
  where
    taken :
        (l : List ℕ) → l ≡ k.freelist → times x k.freelist ≡ times x k'.freelist + times x (v ∷ [])
    taken [] q = ground arith
    taken (r ∷ rest) q = ground arith

kfree-times :
    (kernel_end x v : ℕ) (k k' : Kmem)
    → kfree kernel_end k v ≡ some k'
    → times x k'.freelist ≡ times x k.freelist + times x (v ∷ [])
unfolding kfree
kfree-times kernel_end x v k k' e = elim (Bool-cases (is_bad kernel_end v)) [
  | inl bad ↦ ground arith
  | inr good ↦ ground arith
]

-- After any calls of `kalloc` and `kfree` by clients that free only pages they hold, each page
-- stands as often in the free list and with the clients together as before.
pub Use-times :
    {kernel_end : ℕ} {k k' : Kmem} {held held' : List ℕ}
    → Use kernel_end k held k' held'
    → (x : ℕ) → times x k'.freelist + times x held' ≡ times x k.freelist + times x held
Use-times done x = refl
Use-times (allocates {k} {k₁} {k₂} {held} {held₁} v u e) x =
    omega (arith, Use-times u x, kalloc-times x v k₁ k₂ e, times-middle x v [] held₁)
Use-times {kernel_end} (frees {k} {k₁} {k₂} before after v u e) x =
    omega (arith, Use-times u x, kfree-times kernel_end x v k₁ k₂ e, times-middle x v before after)
