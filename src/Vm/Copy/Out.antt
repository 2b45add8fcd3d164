-- ===== src/Vm/Copy/Out.antt =====
-- copyout writes the user's bytes of a range of addresses, through the page table.
use os_project2_test.Prelude.{
  ℕ, zero, suc, ◌+◌, ◌*◌, ◌/◌, ◌%◌, ◌-◌, ◌^◌, ◌≡◌, ◌≤◌, ◌<◌, refl, sym, ap, subst, ◌∙◌, true, false,
  ◌&&◌, some, ◌==◌, ltb, if◌then◌else◌, arith, Bool-cases, inl, inr, add32,
}
use os_project2_test.Fs.{Blocks}
use os_project2_test.Vm.{Vm, pte_at, is_present, is_user, pte_frame, find_pte, round_down}
use os_project2_test.Vm.Copy.{uva2ka, to_frame, copyout_from, copyout}
use os_project2_test.Vm.Table.{entry, entry-there, entry-out, Owner, IsSpace}
use os_project2_test.Vm.Walk.{find_pte-page}
use os_project2_test.Vm.Space.Shrunk.{within}
use os_project2_test.Vm.Copy.Copied.{Copied, is_mapped, Copied-none, Copied-join, Copied-part}

-- Every page of the addresses is mapped for the user.
abbrev pub AllUser : Vm → ℕ → ℕ → ℕ → Type 0
AllUser s d va len =
    (x : ℕ)
    → within va (va + len) x ≡ true
    → is_present (entry s.mem d (x / 4096)) && is_user (entry s.mem d (x / 4096)) ≡ true

uva2ka-found :
    (m : Blocks) (d va t i : ℕ)
    → find_pte m d va ≡ some (t, i)
    → is_present (pte_at m t i) ≡ true
    → is_user (pte_at m t i) ≡ true
    → uva2ka m d va ≡ some (some (pte_frame (pte_at m t i)))
unfolding uva2ka
uva2ka-found m d va t i e p u = rw (e, uva2ka, p, u) refl

uva2ka-user :
    (m : Blocks) (d n : ℕ)
    → n < 2 ^ 20
    → is_present (entry m d n) && is_user (entry m d n) ≡ true
    → uva2ka m d (n * 4096) ≡ some (some (pte_frame (entry m d n)))
uva2ka-user m d n h there = elim (Bool-cases (is_present (pte_at m d (n / 1024)))) [
  | inl table ↦
      let e = entry-there m d n table in
      let p : is_present (entry m d n) ≡ true = ground arith in
      let u : is_user (entry m d n) ≡ true = ground arith in
      uva2ka-found m d (n * 4096) (pte_frame (pte_at m d (n / 1024))) (n % 1024)
        (find_pte-page m d n h table) (ap is_present (sym e) ∙ p) (ap is_user (sym e) ∙ u)
      ∙ ap (λ x. some (some (pte_frame x))) (sym e)
  | inr out ↦ let e = entry-out m d n out in ground arith
]

-- How much of a page a turn copies.
abbrev part : ℕ → ℕ → ℕ
part va len = if ltb len (4096 - (va - round_down va)) then len else 4096 - (va - round_down va)

copyout_from-end :
    (turns : ℕ) (m : Blocks) (d va : ℕ) (p : ℕ → ℕ) (buf : ℕ)
    → copyout_from turns m d va p buf 0 ≡ some (true, m)
unfolding copyout_from
copyout_from-end zero m d va p buf = refl
copyout_from-end (suc turns) m d va p buf = refl

copyout_from-turn :
    (turns : ℕ) (m : Blocks) (d va : ℕ) (p : ℕ → ℕ) (buf len f : ℕ)
    → (len == 0) ≡ false
    → uva2ka m d (round_down va) ≡ some (some f)
    → copyout_from (suc turns) m d va p buf len
      ≡ copyout_from turns
          (to_frame m f (va - round_down va) p buf (part va len))
          d
          (add32 (round_down va) 4096)
          p
          (buf + part va len)
          (len - part va len)
unfolding copyout_from
copyout_from-turn turns m d va p buf len f h e = rw (h, e) refl

-- After a turn that copied all that is left, the address does not matter.
copyout_from-next :
    (turns : ℕ) (m : Blocks) (d va : ℕ) (p : ℕ → ℕ) (buf len : ℕ)
    → va + len ≤ 2 ^ 31
    → copyout_from turns m d (add32 (round_down va) 4096) p buf (len - part va len)
      ≡ copyout_from turns m d (va + part va len) p buf (len - part va len)
copyout_from-next turns m d va p buf len small = elim (Bool-cases (len - part va len == 0)) [
  | inl over ↦
      let z : len - part va len ≡ 0 = ground arith in
      ap (copyout_from turns m d (add32 (round_down va) 4096) p buf) z
      ∙ copyout_from-end turns m d (add32 (round_down va) 4096) p buf
      ∙ sym (
          ap (copyout_from turns m d (va + part va len) p buf) z
          ∙ copyout_from-end turns m d (va + part va len) p buf)
  | inr rest ↦
      let next : add32 (round_down va) 4096 ≡ va + part va len = ground arith in
      ap (λ k. copyout_from turns m d k p buf (len - part va len)) next
]

-- A turn, with the frame that it writes.
copyout_from-step :
    (turns : ℕ) (m : Blocks) (d va : ℕ) (p : ℕ → ℕ) (buf len f : ℕ)
    → (len == 0) ≡ false
    → va + len ≤ 2 ^ 31
    → uva2ka m d (round_down va) ≡ some (some f)
    → copyout_from (suc turns) m d va p buf len
      ≡ copyout_from turns
          (to_frame m f (va % 4096) p buf (part va len))
          d
          (va + part va len)
          p
          (buf + part va len)
          (len - part va len)
copyout_from-step turns m d va p buf len f more small e =
    copyout_from-turn turns m d va p buf len f more e
    ∙ copyout_from-next turns (to_frame m f (va - round_down va) p buf (part va len)) d va p
        (buf + part va len) len small
    ∙ ap
        (λ k.
          copyout_from turns (to_frame m f k p buf (part va len)) d (va + part va len) p
            (buf + part va len) (len - part va len))
        (let i : va - round_down va ≡ va % 4096 = omega arith in i)

copyout_from_lem :
    (turns kernel_end : ℕ) (s : Vm) (d : ℕ) (own : Owner) (va : ℕ) (p : ℕ → ℕ) (buf len : ℕ)
    → IsSpace kernel_end s d own
    → va + len ≤ 2 ^ 31
    → len ≤ turns
    → AllUser s d va len
    → (m : Blocks) × (copyout_from turns s.mem d va p buf len ≡ some (true, m))
      × Copied kernel_end s d own va p buf len m
copyout_from_lem zero kernel_end s d own va p buf len ok small enough user =
    let z : len ≡ 0 = omega arith in
    (
      s.mem,
      ap (copyout_from zero s.mem d va p buf) z ∙ copyout_from-end zero s.mem d va p buf,
      subst (λ k. Copied kernel_end s d own va p buf k s.mem) (sym z)
          (Copied-none kernel_end s d own va p buf ok),
    )
copyout_from_lem (suc turns) kernel_end s d own va p buf len ok small enough user =
    elim (Bool-cases (len == 0)) [
      | inl none_left ↦
          let z : len ≡ 0 = ground arith in
          (
            s.mem,
            ap (copyout_from (suc turns) s.mem d va p buf) z
                ∙ copyout_from-end (suc turns) s.mem d va p buf,
            subst (λ k. Copied kernel_end s d own va p buf k s.mem) (sym z)
                (Copied-none kernel_end s d own va p buf ok),
          )
      | inr more ↦
          let here = user va (ground arith) in
          let there : is_mapped s.mem d (va / 4096) ≡ true = ground arith in
          let fits : va % 4096 + part va len ≤ 4096 = ground arith in
          let le : part va len ≤ len = ground arith in
          let f = pte_frame (entry s.mem d (va / 4096)) in
          let c =
            Copied-part kernel_end s d own va p buf (part va len) ok (ground arith) fits there in
          let m₁ = to_frame s.mem f (va % 4096) p buf (part va len) in
          let (m, e, c') =
            copyout_from_lem turns kernel_end (record s { mem = m₁ }) d own (va + part va len) p
              (buf + part va len) (len - part va len) c.space (ground arith) (ground arith)
              (λ x w.
                let q = c.entries (x / 4096) (ground arith) in
                let u = user x (ground arith) in rw q u) in
          (
            m,
            copyout_from-step turns s.mem d va p buf len f more small
                  (uva2ka-user s.mem d (va / 4096) (ground arith) here)
                ∙ e,
            Copied-join kernel_end s d own va p buf (part va len) len m₁ m le c c',
          )
    ]

-- In an address space whose tables and pages are its own and whose free frames are on the free
-- list, each once, for addresses below 2^31 that are all mapped for the user, `copyout` returns
-- 0 and puts exactly the bytes given at exactly these addresses; no other byte that the user or
-- the kernel can see, and no entry, changes.
pub copyout_lem :
    (kernel_end : ℕ) (s : Vm) (d : ℕ) (own : Owner) (va : ℕ) (p : ℕ → ℕ) (len : ℕ)
    → IsSpace kernel_end s d own
    → va + len ≤ 2 ^ 31
    → AllUser s d va len
    → (m : Blocks) × (copyout s.mem d va p len ≡ some (true, m))
      × Copied kernel_end s d own va p 0 len m
unfolding copyout
copyout_lem kernel_end s d own va p len ok small user =
    copyout_from_lem len kernel_end s d own va p 0 len ok small (omega arith) user
