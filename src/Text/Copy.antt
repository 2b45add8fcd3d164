-- ===== src/Text/Copy.antt =====
-- strncpy copies a text and fills up with NULs.
use os_project2_test.Prelude.{
  ℕ, zero, suc, ◌≡◌, refl, ap, ◌∙◌, false, ◌==◌, arith, Bool-cases, inl, inr,
}
use os_project2_test.Text.{Memory, write, fill, strncpy}
use os_project2_test.Text.Move.{inside, fill_lem}
use os_project2_test.Text.Strings.{text, text_agree, Apart, Apart-suc}

pub strncpy-outside : (m : Memory) (s t n b : ℕ) → inside s n b ≡ false → strncpy m s t n b ≡ m b
unfolding strncpy
strncpy-outside m s t zero b h = refl
strncpy-outside m s t (suc n) b h = elim (Bool-cases (m t == 0)) [
  | inl e ↦ rw e (fill_lem (write m s (m t)) (suc s) 0 n b ∙ ground arith)
  | inr e ↦
      rw e (strncpy-outside (write m s (m t)) (suc s) (suc t) n b (ground arith) ∙ ground arith)
]

pub text-strncpy : (m : Memory) (s t n : ℕ) → Apart s t n → text (strncpy m s t n) s n ≡ text m t n
unfolding text strncpy
text-strncpy m s t zero apart = refl
text-strncpy m s t (suc n) apart = elim (Bool-cases (m t == 0)) [
  | inl e ↦
      let first : fill (write m s (m t)) (suc s) 0 n s ≡ m t =
        fill_lem (write m s (m t)) (suc s) 0 n s ∙ ground arith in
      rw (e, first, e) refl
  | inr e ↦
      let first : strncpy (write m s (m t)) (suc s) (suc t) n s ≡ m t =
        strncpy-outside (write m s (m t)) (suc s) (suc t) n s (ground arith) ∙ ground arith in
      let ih = text-strncpy (write m s (m t)) (suc s) (suc t) n (Apart-suc s t n apart) in
      let rest = ih ∙ text_agree m (write m s (m t)) (suc t) n (λ a l u. ground arith) in
      let step : strncpy m s t (suc n) ≡ strncpy (write m s (m t)) (suc s) (suc t) n = rw e refl in
      ap (λ r. text r s (suc n)) step ∙ rw (first, e, rest) refl
]
