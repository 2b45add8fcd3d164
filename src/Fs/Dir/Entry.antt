-- ===== src/Fs/Dir/Entry.antt =====
-- The entries of a directory, and what a read of one shows.
use os_project2_test.Prelude.{
  ℕ, zero, suc, ◌+◌, ◌-◌, ◌*◌, ◌≡◌, ◌≢◌, ◌≤◌, ◌<◌, refl, ap, ◌∙◌, subst, false, ◌&&◌, ◌⊎◌, inl, inr,
  Option, none, some, List, ◌==◌, ltb, leb, arith, Bool-cases,
}
use os_project2_test.Text.Strings.{text, IsBytes}
use os_project2_test.Fs.{Inode, Fs}
use os_project2_test.Fs.Content.{Mem}
use os_project2_test.Fs.Content.Read.{content, IsFilled}
use os_project2_test.Fs.Dir.{inum_at}

-- Places that hold the same bytes show the same text.
pub text_shift :
    (m m' : Mem) (p q n : ℕ) → ((i : ℕ) → i < n → m (p + i) ≡ m' (q + i)) → text m p n ≡ text m' q n
unfolding text
text_shift m m' p q zero h = refl
text_shift m m' p q (suc n) h =
    let first : m p ≡ m' q =
      ap m (let e : p ≡ p + 0 = omega arith in e)
      ∙ h 0 (omega arith)
      ∙ ap m' (let e : q + 0 ≡ q = omega arith in e) in
    let rest = text_shift m m' (suc p) (suc q) n (λ i l.
      ap m (let e : suc p + i ≡ p + suc i = omega arith in e)
      ∙ h (suc i) (omega arith)
      ∙ ap m' (let e : q + suc i ≡ suc q + i = omega arith in e)) in
    rw (first, rest) refl

-- Entry `k` of a directory with the bytes `file`: its inode number and its name.
abbrev pub entry_inum : Mem → ℕ → ℕ
entry_inum file k = inum_at file (16 * k)

abbrev pub entry_name : Mem → ℕ → List ℕ
entry_name file k = text file (16 * k + 2) 14

-- The entry is not in use or has another name.
abbrev pub Misses : Mem → List ℕ → ℕ → Type 0
Misses file name k = (entry_inum file k ≡ 0) ⊎ (entry_name file k ≢ name)

-- What a search from entry `k` on, through `n` entries, gives: the first that does not miss.
abbrev pub Answer : Mem → List ℕ → ℕ → ℕ → Option (ℕ × ℕ) → Type 0
Answer file name k n none = (j : ℕ) → k ≤ j → j < k + n → Misses file name j
Answer file name k n (some (inum, off)) =
    (j : ℕ) × (off ≡ 16 * j)
    × (k ≤ j)
    × (j < k + n)
    × (inum ≡ entry_inum file j)
    × ((inum == 0) ≡ false)
    × (entry_name file j ≡ name)
    × ((i : ℕ) → k ≤ i → i < j → Misses file name i)

pub Answer-next :
    (file : Mem) (name : List ℕ) (k n : ℕ) (r : Option (ℕ × ℕ))
    → Misses file name k
    → Answer file name (suc k) n r
    → Answer file name k (suc n) r
Answer-next file name k n none m a = λ j l h. elim (Bool-cases (j == k)) [
  | inl here ↦ let at : k ≡ j = ground arith in subst (Misses file name) at m
  | inr later ↦ a j (ground arith) (omega arith)
]
Answer-next file name k n (some (inum, off)) m (j, e, l, h, i, z, s, before) = (
  j,
  e,
  omega arith,
  omega arith,
  i,
  z,
  s,
  λ i l h. elim (Bool-cases (i == k)) [
    | inl here ↦ let at : k ≡ i = ground arith in subst (Misses file name) at m
    | inr later ↦ before i (ground arith) h
  ],
)

-- A directory whose bytes are there.
pub record IsDir (fs : Fs) (dp : Inode) (n : ℕ) : Type 0 where
  pub type : dp.type ≡ 1
  pub entries : dp.size ≡ 16 * n
  pub fit : dp.size ≤ 140 * 512
  pub filled : IsFilled fs.cache dp dp.size
  pub bytes : IsBytes (content fs.cache dp)

-- The name does not lie where the entries are read to.
abbrev pub IsApart : ℕ → ℕ → Type 0
IsApart name de = (name + 14 ≤ de) ⊎ (de + 16 ≤ name)

-- What the entry read shows.
module _ (file mem mem' : Mem) (name de k : ℕ)
    (new : (i : ℕ) → i < 16 → mem' (de + i) ≡ file (16 * k + i))
    (old : (a : ℕ) → (leb de a && ltb a (de + 16)) ≡ false → mem' a ≡ mem a) where
  pub read-inum : inum_at mem' de ≡ entry_inum file k
  read-inum =
      let low : mem' de ≡ file (16 * k) =
        ap mem' (let e : de ≡ de + 0 = omega arith in e)
        ∙ new 0 (omega arith)
        ∙ ap file (let e : 16 * k + 0 ≡ 16 * k = omega arith in e) in
      let high = new 1 (omega arith) in omega arith

  pub read-name : text mem' (de + 2) 14 ≡ entry_name file k
  read-name = text_shift mem' file (de + 2) (16 * k + 2) 14 (λ i l.
      ap mem' (let e : de + 2 + i ≡ de + (2 + i) = omega arith in e)
      ∙ new (2 + i) (omega arith)
      ∙ ap file (let e : 16 * k + (2 + i) ≡ 16 * k + 2 + i = omega arith in e))

  pub name_kept : (name + 14 ≤ de) ⊎ (de + 16 ≤ name) → text mem' name 14 ≡ text mem name 14
  name_kept (inl before) = text_shift mem' mem name name 14 (λ i l. old (name + i) (ground arith))
  name_kept (inr behind) = text_shift mem' mem name name 14 (λ i l. old (name + i) (ground arith))

  pub read-IsBytes : IsBytes file → IsBytes mem → IsBytes mem'
  read-IsBytes f m a = elim (Bool-cases (leb de a && ltb a (de + 16))) [
    | inl inside ↦
        let at : de + (a - de) ≡ a = ground arith in
        let b = f (16 * k + (a - de)) in
        let e = new (a - de) (ground arith) in let q = ap mem' at in omega arith
    | inr outside ↦ let e = old a outside in let b = m a in omega arith
  ]

-- The name is as before in a memory of bytes.
abbrev pub Kept : Mem → Mem → ℕ → Type 0
Kept mem mem' name = (text mem' name 14 ≡ text mem name 14) × IsBytes mem'
