-- ===== src/Vm/Copy/Copied.antt =====
-- Bytes that have been copied to a user's addresses.
use os_project2_test.Prelude.{
  ℕ, ◌+◌, ◌/◌, ◌%◌, ◌-◌, ◌^◌, ◌≡◌, ◌≤◌, ◌<◌, refl, sym, ap, ◌∙◌, Bool, true, false, ◌&&◌, ◌==◌, ltb,
  leb, if◌then◌else◌, arith, Bool-cases, inl, inr,
}
use os_project2_test.Fs.{Blocks}
use os_project2_test.Vm.{Vm, is_present, pte_frame}
use os_project2_test.Vm.Copy.{to_frame}
use os_project2_test.Vm.Table.{entry, Owner, IsSpace}
use os_project2_test.Vm.Table.Owned.{entry-keep, IsSpace-keep, Owner-differ}
use os_project2_test.Vm.Space.Shrunk.{within}

-- The byte at a user's address.
abbrev pub user_byte : Blocks → ℕ → ℕ → ℕ
user_byte m d x = m (pte_frame (entry m d (x / 4096))) (x % 4096)

abbrev pub is_mapped : Blocks → ℕ → ℕ → Bool
is_mapped m d n = is_present (entry m d n)

-- The bytes of `p` from `buf` on stand at the addresses from `va` on; nothing else has changed.
pub record Copied (kernel_end : ℕ) (s : Vm) (d : ℕ) (own : Owner) (va : ℕ) (p : ℕ → ℕ) (buf len : ℕ)
    (m : Blocks) : Type 0 where
  pub space : IsSpace kernel_end (record s { mem = m }) d own
  pub entries : (n : ℕ) → n < 2 ^ 20 → entry m d n ≡ entry s.mem d n
  pub bytes :
      (x : ℕ)
      → x < 2 ^ 31
      → is_mapped s.mem d (x / 4096) ≡ true
      → user_byte m d x
        ≡ (if within va (va + len) x then p (buf + (x - va)) else user_byte s.mem d x)
  pub others : (g j : ℕ) → ltb (own g) 2000 ≡ true → m g j ≡ s.mem g j

pub Copied-none :
    (kernel_end : ℕ) (s : Vm) (d : ℕ) (own : Owner) (va : ℕ) (p : ℕ → ℕ) (buf : ℕ)
    → IsSpace kernel_end s d own
    → Copied kernel_end s d own va p buf 0 s.mem
Copied-none kernel_end s d own va p buf ok = record {
  space = ok;
  entries = λ n h. refl;
  bytes = λ x h t. let out : within va (va + 0) x ≡ false = ground arith in rw out refl;
  others = λ g j h. refl;
}

pub Copied-join :
    (kernel_end : ℕ) (s : Vm) (d : ℕ) (own : Owner) (va : ℕ) (p : ℕ → ℕ) (buf n len : ℕ)
    (m m' : Blocks)
    → n ≤ len
    → Copied kernel_end s d own va p buf n m
    → Copied kernel_end (record s { mem = m }) d own (va + n) p (buf + n) (len - n) m'
    → Copied kernel_end s d own va p buf len m'
Copied-join kernel_end s d own va p buf n len m m' le c c' = record {
  space = c'.space;
  entries = λ k h. c'.entries k h ∙ c.entries k h;
  bytes = λ x h t.
      c'.bytes x h (ap is_present (c.entries (x / 4096) (omega arith)) ∙ t)
      ∙ elim (Bool-cases (within (va + n) (va + n + (len - n)) x)) [
        | inl late ↦
            let w : within va (va + len) x ≡ true = ground arith in
            let i : buf + n + (x - (va + n)) ≡ buf + (x - va) = ground arith in
            rw (late, w) (ap p i)
        | inr other ↦ rw other (
            c.bytes x h t
            ∙ (let w : within va (va + n) x ≡ within va (va + len) x = ground arith in
                ap (λ b. if b then p (buf + (x - va)) else user_byte s.mem d x) w))
      ];
  others = λ g j h. c'.others g j h ∙ c.others g j h;
}

-- One page's part.
pub Copied-part :
    (kernel_end : ℕ) (s : Vm) (d : ℕ) (own : Owner) (va : ℕ) (p : ℕ → ℕ) (buf n : ℕ)
    → IsSpace kernel_end s d own
    → va < 2 ^ 31
    → va % 4096 + n ≤ 4096
    → is_mapped s.mem d (va / 4096) ≡ true
    → Copied kernel_end s d own va p buf n
        (to_frame s.mem (pte_frame (entry s.mem d (va / 4096))) (va % 4096) p buf n)
Copied-part kernel_end s d own va p buf n ok h fits there = record {
  space =
      IsSpace-keep kernel_end s d own ok (record s { mem = to_frame s.mem f (va % 4096) p buf n })
        own (λ g j t. other g j (ground arith)) (λ g. ground arith) ok.range ok.spare ok.listed;
  entries = same;
  bytes = λ x b t. rw (same (x / 4096) (omega arith)) (elim (Bool-cases (va / 4096 == x / 4096)) [
    | inl at ↦
        let q : va / 4096 ≡ x / 4096 = ground arith in
        let e : (f == pte_frame (entry s.mem d (x / 4096))) ≡ true =
          ap (λ k. f == pte_frame (entry s.mem d k)) (sym q) ∙ self f in
        let w : (leb (va % 4096) (x % 4096) && ltb (x % 4096) (va % 4096 + n))
            ≡ within va (va + n) x =
          ground arith in
        elim (Bool-cases (within va (va + n) x)) [
          | inl is ↦
              let i : x % 4096 - va % 4096 ≡ x - va = ground arith in
              rw (e, w ∙ is, is) (ap (λ k. p (buf + k)) i)
          | inr out ↦ rw (e, w ∙ out, out) refl
        ]
    | inr off ↦
        let o = ok.pages (x / 4096) (omega arith) in
        let a = owned in
        let e : (f == pte_frame (entry s.mem d (x / 4096))) ≡ false =
          Owner-differ kernel_end s d own ok f (pte_frame (entry s.mem d (x / 4096)))
            (ground arith) in
        let w : within va (va + n) x ≡ false = ground arith in rw (e, w) refl
  ]);
  others = λ g j t. other g j t;
}
  where
    f : ℕ
    f = pte_frame (entry s.mem d (va / 4096))

    self : (k : ℕ) → (k == k) ≡ true
    self k = ground arith

    owned : own f ≡ 2000 + va / 4096
    owned = let e = ok.pages (va / 4096) (omega arith) in ground arith

    other :
        (g j : ℕ) → ltb (own g) 2000 ≡ true → to_frame s.mem f (va % 4096) p buf n g j ≡ s.mem g j
    other g j t = let a = owned in rw (Owner-differ kernel_end s d own ok f g (ground arith)) refl

    same : (k : ℕ) → k < 2 ^ 20 → entry (to_frame s.mem f (va % 4096) p buf n) d k ≡ entry s.mem d k
    same k b =
        entry-keep kernel_end s d own ok (to_frame s.mem f (va % 4096) p buf n) k
          (λ g j t. other g j (ground arith)) b
