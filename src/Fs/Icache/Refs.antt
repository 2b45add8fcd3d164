-- ===== src/Fs/Icache/Refs.antt =====
-- The table holds each inode once, and iget adds a reference to the inode asked for.
use os_project2_test.Prelude.{
  ℕ, zero, suc, ◌+◌, ◌-◌, ◌^◌, ◌≡◌, ◌≤◌, ◌<◌, refl, ap, ◌∙◌, subst, true, false, ◌&&◌, ◌⊎◌, Option,
  none, some, List, [], ◌∷◌, ◌==◌, if◌then◌else◌, get_elem?, modify, arith, Bool-cases,
  Option-cases, inl, inr, All,
}
use os_project2_test.Fs.{Inode}
use os_project2_test.Fs.Icache.{
  is_cached, note, Place, cached, recycled, full, seek, more, renewed, iget,
}

-- A figure added up over the table.
abbrev pub total : (Inode → ℕ) → List Inode → ℕ
total w [] = 0
total w (ip ∷ ips) = w ip + total w ips

total-modify :
    (w : Inode → ℕ) (f : Inode → Inode) (table : List Inode) (i : ℕ) (ip : Inode)
    → get_elem? table i ≡ some ip
    → total w (modify i f table) + w ip ≡ total w table + w (f ip)
total-modify w f [] i ip e = cc
total-modify w f (x ∷ xs) zero ip e =
    let same : x ≡ ip = ground arith in
    let old = ap w same in let new = ap (λ y. w (f y)) same in omega arith
total-modify w f (x ∷ xs) (suc i) ip e = omega (arith, total-modify w f xs i ip e)

-- How many entries hold an inode, and how many references there are to it.
abbrev pub copies : ℕ → ℕ → List Inode → ℕ
copies dev inum = total (λ ip. if is_cached dev inum ip then 1 else 0)

abbrev pub refs : ℕ → ℕ → List Inode → ℕ
refs dev inum = total (λ ip. if is_cached dev inum ip then ip.ref else 0)

-- What the loop finds in a rest of the table.
abbrev Found : ℕ → ℕ → List Inode → ℕ → Option ℕ → Place → Type 0
Found dev inum ips i empty (cached k) =
    (j : ℕ) × (ip : Inode) × (k ≡ i + j)
    × (get_elem? ips j ≡ some ip)
    × (is_cached dev inum ip ≡ true)
Found dev inum ips i empty (recycled k) =
    (copies dev inum ips ≡ 0)
    × ((empty ≡ some k)
        ⊎ ((j : ℕ) × (ip : Inode) × (k ≡ i + j) × (get_elem? ips j ≡ some ip) × (ip.ref ≡ 0)))
Found dev inum ips i empty full =
    (copies dev inum ips ≡ 0) × (empty ≡ none) × All (λ (ip : Inode). (ip.ref == 0) ≡ false) ips

Found-next :
    (dev inum : ℕ) (ip : Inode) (ips : List Inode) (i : ℕ) (empty : Option ℕ) (p : Place)
    → is_cached dev inum ip ≡ false
    → Found dev inum ips (suc i) (note ip i empty) p
    → Found dev inum (ip ∷ ips) i empty p
Found-next dev inum ip ips i empty (cached k) other (j, q, e, at, hit) =
    (suc j, q, omega arith, at, hit)
Found-next dev inum ip ips i (some k') (recycled k) other (z, inl e) =
    (rw other (omega arith), inl e)
Found-next dev inum ip ips i none (recycled k) other (z, inl e) = elim (Bool-cases (ip.ref == 0)) [
  | inl free ↦ (rw other (omega arith), inr (0, ip, ground arith, refl, ground arith))
  | inr used ↦ absurd (ground arith)
]
Found-next dev inum ip ips i empty (recycled k) other (z, inr (j, q, e, at, free)) =
    (rw other (omega arith), inr (suc j, q, omega arith, at, free))
Found-next dev inum ip ips i (some k) full other (z, e, all) = absurd (ground arith)
Found-next dev inum ip ips i none full other (z, e, all) = elim (Bool-cases (ip.ref == 0)) [
  | inl free ↦ absurd (ground arith)
  | inr used ↦ (rw other (omega arith), refl, (used, all))
]

seek-Found :
    (dev inum : ℕ) (table : List Inode) (i : ℕ) (empty : Option ℕ)
    → Found dev inum table i empty (seek dev inum table i empty)
unfolding seek
seek-Found dev inum [] i none = (refl, refl, tt)
seek-Found dev inum [] i (some k) = (refl, inl refl)
seek-Found dev inum (ip ∷ ips) i empty = elim (Bool-cases (is_cached dev inum ip)) [
  | inl hit ↦ rw hit (0, ip, omega arith, refl, hit)
  | inr other ↦ rw other (
      Found-next dev inum ip ips i empty (seek dev inum ips (suc i) (note ip i empty)) other
        (seek-Found dev inum ips (suc i) (note ip i empty)))
]

get_elem?-modify :
    (f : Inode → Inode) (table : List Inode) (i : ℕ) (ip : Inode)
    → get_elem? table i ≡ some ip
    → get_elem? (modify i f table) i ≡ some (f ip)
get_elem?-modify f [] i ip e = cc
get_elem?-modify f (x ∷ xs) zero ip e =
    ap (λ (r : Option Inode). elim r [ none ↦ none | some y ↦ some (f y) ]) e
get_elem?-modify f (x ∷ xs) (suc i) ip e = get_elem?-modify f xs i ip e

All-get :
    (P : Inode → Type 0) (table : List Inode) (i : ℕ) (ip : Inode)
    → All P table
    → get_elem? table i ≡ some ip
    → P ip
All-get P [] i ip h e = cc
All-get P (x ∷ xs) zero ip h e = let same : x ≡ ip = ground arith in subst P same h.0
All-get P (x ∷ xs) (suc i) ip h e = All-get P xs i ip h.1 e

-- Entry `i` holds the inode; it has a reference more, and no other inode has.
pub record Referenced (dev inum : ℕ) (table table' : List Inode) (i : ℕ) : Type 0 where
  pub entry : (ip : Inode) × (get_elem? table' i ≡ some ip) × (is_cached dev inum ip ≡ true)
  pub counts :
      (d n : ℕ) → refs d n table' ≡ refs d n table + (if d == dev && n == inum then 1 else 0)
  pub unique : (d n : ℕ) → copies d n table' ≤ 1

module _ (dev inum : ℕ) (table : List Inode) (unique : (d n : ℕ) → copies d n table ≤ 1)
    (small : All (λ (ip : Inode). ip.ref < 2 ^ 31 - 1) table) where
  more-Referenced :
      (i : ℕ) (ip : Inode)
      → get_elem? table i ≡ some ip
      → is_cached dev inum ip ≡ true
      → Referenced dev inum table (modify i more table) i
  more-Referenced i ip at hit =
      let s = All-get (λ ip. ip.ref < 2 ^ 31 - 1) table i ip small at in
      record {
        entry = (more ip, get_elem?-modify more table i ip at, ground arith);
        counts = λ d n.
            let t =
              total-modify (λ ip. if is_cached d n ip then ip.ref else 0) more table i ip at in
            ground arith;
        unique = λ d n.
            let t = total-modify (λ ip. if is_cached d n ip then 1 else 0) more table i ip at in
            let u = unique d n in ground arith;
      }

  renewed-Referenced :
      (i : ℕ) (ip : Inode)
      → get_elem? table i ≡ some ip
      → ip.ref ≡ 0
      → copies dev inum table ≡ 0
      → Referenced dev inum table (modify i (renewed dev inum) table) i
  renewed-Referenced i ip at free none_there = record {
    entry = (renewed dev inum ip, get_elem?-modify (renewed dev inum) table i ip at, ground arith);
    counts = λ d n.
        let t =
          total-modify (λ ip. if is_cached d n ip then ip.ref else 0) (renewed dev inum) table i ip
            at in
        ground arith;
    unique = λ d n.
        let t =
          total-modify (λ ip. if is_cached d n ip then 1 else 0) (renewed dev inum) table i ip at in
        let u = unique d n in ground arith;
  }

-- How many entries are free.
abbrev pub free : List Inode → ℕ
free = total (λ ip. if ip.ref == 0 then 1 else 0)

free-none :
    (table : List Inode) → All (λ (ip : Inode). (ip.ref == 0) ≡ false) table → free table ≡ 0
free-none [] h = refl
free-none (ip ∷ ips) h = let rest = free-none ips h.1 in let first = h.0 in ground arith

abbrev IfReferenced : ℕ → ℕ → List Inode → Option (ℕ × List Inode) → Type 0
IfReferenced dev inum table none = (copies dev inum table ≡ 0) × (free table ≡ 0)
IfReferenced dev inum table (some (i, table')) = Referenced dev inum table table' i

iget-IfReferenced :
    (dev inum : ℕ) (table : List Inode)
    → ((d n : ℕ) → copies d n table ≤ 1)
    → All (λ (ip : Inode). ip.ref < 2 ^ 31 - 1) table
    → IfReferenced dev inum table (iget dev inum table)
unfolding iget
iget-IfReferenced dev inum table unique small =
    place (seek dev inum table 0 none) (seek-Found dev inum table 0 none)
  where
    place :
        (p : Place)
        → Found dev inum table 0 none p
        → IfReferenced dev inum table (elim p [
          | cached i ↦ some (i, modify i more table)
          | recycled i ↦ some (i, modify i (renewed dev inum) table)
          | full ↦ none
        ])
    place (cached k) (j, ip, e, at, hit) =
        more-Referenced dev inum table unique small k ip
          ((ap (get_elem? table) (let q : k ≡ j = omega arith in q)) ∙ at) hit
    place (recycled k) (z, inl e) = absurd (ground arith)
    place (recycled k) (z, inr (j, ip, e, at, unused)) =
        renewed-Referenced dev inum table unique small k ip
          ((ap (get_elem? table) (let q : k ≡ j = omega arith in q)) ∙ at) unused z
    place full (z, e, all) = (z, free-none table all)

-- On a table that holds each inode at most once, with counts below 2^31 - 1, and the inode asked
-- for or a free entry in it: `iget` returns an entry with the inode, the table still holds each
-- inode at most once, and the references to the inode asked for are one more, those to any other
-- inode as many as before.
pub iget_lem :
    (dev inum : ℕ) (table : List Inode)
    → ((d n : ℕ) → copies d n table ≤ 1)
    → All (λ (ip : Inode). ip.ref < 2 ^ 31 - 1) table
    → (copies dev inum table == 0 && free table == 0) ≡ false
    → (i : ℕ) × (table' : List Inode) × (iget dev inum table ≡ some (i, table'))
      × Referenced dev inum table table' i
iget_lem dev inum table unique small room = elim (Option-cases (iget dev inum table)) [
  | inl e ↦
      let (z, f) =
        subst (IfReferenced dev inum table) e (iget-IfReferenced dev inum table unique small) in
      absurd (ground arith)
  | inr ((i, table'), e) ↦ (
    i,
    table',
    e,
    subst (IfReferenced dev inum table) e (iget-IfReferenced dev inum table unique small),
  )
]
