-- ===== src/Console/Lines.antt =====
-- What is typed: the bytes that can be read, and the line that is still edited.
pub mod Keys
use os_project2_test.Prelude.{
  ℕ, zero, suc, ◌+◌, ◌%◌, ◌^◌, ◌≡◌, ◌≤◌, ◌<◌, refl, sym, ap, ap₂, subst, ◌∙◌, Bool, true, false,
  not, ◌&&◌, ◌||◌, List, [], ◌∷◌, ◌++◌, ◌==◌, ltb, if◌then◌else◌, add32, sub32, arith, Bool-cases,
  inl, inr, length,
}
use os_project2_test.Console.{
  Input, store_byte, kill_line, newline, store_key, console_key, consoleintr,
}
use os_project2_test.Console.Ring.{ring, ring-snoc, length-ring, ring-append, ring-store}

pub record Lines : Type 0 where
  pub ready : List ℕ
  pub line : List ℕ

abbrev pub lines_of : Input → Lines
lines_of s = record {
  ready = ring s.buf s.r (sub32 s.w s.r);
  line = ring s.buf s.w (sub32 s.e s.w);
}

unfoldable pub has_newline : List ℕ → Bool
has_newline [] = false
has_newline (c ∷ l) = c == 10 || has_newline l

-- The indices stand in order, at most 128 bytes apart, and the edited line has no newline.
pub record IsValid (s : Input) : Type 0 where
  pub words : (ltb s.r (2 ^ 32) && ltb s.w (2 ^ 32) && ltb s.e (2 ^ 32)) ≡ true
  pub order : sub32 s.w s.r ≤ sub32 s.e s.r
  pub room : sub32 s.e s.r ≤ 128
  pub edits : has_newline (ring s.buf s.w (sub32 s.e s.w)) ≡ false

pub drop_last : List ℕ → List ℕ
drop_last [] = []
drop_last (c ∷ l) = elim l [ [] ↦ [] | d ∷ l' ↦ c ∷ drop_last l ]

-- A byte goes to the end of the line, which a newline, `^D` or the last place ends.
pub enter : Lines → ℕ → Lines × Bool
enter q c =
    if c == 10 || c == 4 || length q.ready + length q.line + 1 == 128
    then (record { ready = q.ready ++ (q.line ++ c ∷ []); line = [] }, true)
    else (record q { line = q.line ++ c ∷ [] }, false)

-- A key: `^U` clears the line, `^H` and DEL drop its last byte, others are entered if there is room.
pub type_key : Lines → ℕ → Lines × Bool
type_key q c =
    if c == 16
    then (q, false)
    else if c == 21
    then (record q { line = [] }, false)
    else if c == 8 || c == 127
    then (record q { line = drop_last q.line }, false)
    else if not (c == 0) && ltb (length q.ready + length q.line) 128
    then enter q (newline c)
    else (q, false)

drop_last-snoc : (l : List ℕ) (c : ℕ) → drop_last (l ++ c ∷ []) ≡ l
unfolding drop_last
drop_last-snoc [] c = refl
drop_last-snoc (d ∷ []) c = refl
drop_last-snoc (d ∷ b ∷ l) c = ap (λ x. d ∷ x) (drop_last-snoc (b ∷ l) c)

pub has_newline-snoc : (l : List ℕ) (c : ℕ) → has_newline (l ++ c ∷ []) ≡ (has_newline l || c == 10)
unfolding has_newline
has_newline-snoc [] c = ground arith
has_newline-snoc (d ∷ l) c = let ih = has_newline-snoc l c in ground arith

-- `^U` goes back to where the line begins.
kill_line-all :
    (turns : ℕ) (s : Input) (n : ℕ)
    → s.w < 2 ^ 32
    → s.e ≡ add32 s.w n
    → n ≤ turns
    → n ≤ 128
    → has_newline (ring s.buf s.w n) ≡ false
    → kill_line turns s ≡ record s { e = s.w }
unfolding kill_line
kill_line-all zero s n hw he hn small plain =
    let q : s.e ≡ s.w = omega (arith, he, hn, hw) in ap (λ x. record s { e = x }) q
kill_line-all (suc turns) s zero hw he hn small plain =
    let q : s.e ≡ s.w = omega (arith, he, hw) in
    let t : (s.e == s.w) ≡ true = ground arith in rw t (ap (λ x. record s { e = x }) q)
kill_line-all (suc turns) s (suc n) hw he hn small plain =
    let t : (s.e == s.w) ≡ false = ground arith in
    let i : sub32 s.e 1 ≡ add32 s.w n = omega (arith, he) in
    let a : suc n ≡ n + 1 = omega arith in
    let p : (has_newline (ring s.buf s.w n) || s.buf (add32 s.w n % 128) == 10) ≡ false =
      sym (has_newline-snoc (ring s.buf s.w n) (s.buf (add32 s.w n % 128)))
      ∙ sym (ap has_newline (ap (ring s.buf s.w) a ∙ ring-snoc s.buf s.w n))
      ∙ plain in
    let other : (s.buf (sub32 s.e 1 % 128) == 10) ≡ false =
      ap (λ x. s.buf (x % 128) == 10) i ∙ ground arith in
    rw (t, other)
      (kill_line-all turns (record s { e = sub32 s.e 1 }) n hw i (omega (arith, hn))
        (omega (arith, small)) (ground arith))

pub kill-Result :
    (s : Input)
    → IsValid s
    → (lines_of (kill_line 128 s) ≡ record (lines_of s) { line = [] }) × IsValid (kill_line 128 s)
unfolding ring has_newline
kill-Result s v =
    let ok = v.words in
    let o = v.order in
    let r = v.room in
    let e =
      kill_line-all 128 s (sub32 s.e s.w) (ground arith) (ground arith) (ground arith)
        (ground arith) v.edits in
    let z : sub32 s.w s.w ≡ 0 = ground arith in
    (
      ap lines_of e
          ∙ ap (λ n. record { ready = ring s.buf s.r (sub32 s.w s.r); line = ring s.buf s.w n }) z,
      subst IsValid (sym e) (record {
        words = ground arith;
        order = omega arith;
        room = omega (arith, o, r);
        edits = ap (λ n. has_newline (ring s.buf s.w n)) z;
      }),
    )

-- The edited line, but for its last byte.
line-snoc :
    (s : Input)
    → IsValid s
    → (s.e == s.w) ≡ false
    → ring s.buf s.w (sub32 s.e s.w)
      ≡ ring s.buf s.w (sub32 (sub32 s.e 1) s.w) ++ s.buf (sub32 s.e 1 % 128) ∷ []
line-snoc s v h =
    let ok = v.words in
    let n : sub32 s.e s.w ≡ sub32 (sub32 s.e 1) s.w + 1 = ground arith in
    let i : add32 s.w (sub32 (sub32 s.e 1) s.w) ≡ sub32 s.e 1 = ground arith in
    ap (ring s.buf s.w) n
    ∙ ring-snoc s.buf s.w (sub32 (sub32 s.e 1) s.w)
    ∙ ap (λ k. ring s.buf s.w (sub32 (sub32 s.e 1) s.w) ++ s.buf (k % 128) ∷ []) i

pub erase-Result :
    (s : Input)
    → IsValid s
    → (lines_of (if not (s.e == s.w) then record s { e = sub32 s.e 1 } else s)
        ≡ record (lines_of s) { line = drop_last (lines_of s).line })
      × IsValid (if not (s.e == s.w) then record s { e = sub32 s.e 1 } else s)
unfolding ring drop_last
erase-Result s v = elim (Bool-cases (s.e == s.w)) [
  | inl empty ↦
      let z : sub32 s.e s.w ≡ 0 = let ok = v.words in ground arith in
      rw empty (
        ap (λ n. record { ready = ring s.buf s.r (sub32 s.w s.r); line = ring s.buf s.w n }) z
            ∙ sym (
                ap
                  (λ n. record {
                    ready = ring s.buf s.r (sub32 s.w s.r);
                    line = drop_last (ring s.buf s.w n);
                  })
                  z),
        v,
      )
  | inr some_bytes ↦
      let e = line-snoc s v some_bytes in
      let ok = v.words in
      let o = v.order in
      let r = v.room in
      let plain =
        has_newline-snoc (ring s.buf s.w (sub32 (sub32 s.e 1) s.w)) (s.buf (sub32 s.e 1 % 128)) in
      let plain' = sym (ap has_newline e) ∙ v.edits in
      rw some_bytes (
        ap (λ l. record { ready = ring s.buf s.r (sub32 s.w s.r); line = l })
            (sym (
              ap drop_last e
              ∙ drop_last-snoc (ring s.buf s.w (sub32 (sub32 s.e 1) s.w))
                  (s.buf (sub32 s.e 1 % 128)))),
        record {
          words = ground arith;
          order = ground arith;
          room = ground arith;
          edits = ground arith;
        },
      )
]
