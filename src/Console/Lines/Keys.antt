-- ===== src/Console/Lines/Keys.antt =====
-- Keys that are stored, and the loop of consoleintr.
use os_project2_test.Prelude.{
  ℕ, ◌+◌, ◌%◌, ◌≡◌, refl, sym, ap, ap₂, ◌∙◌, Bool, true, false, not, ◌&&◌, ◌||◌, List, [], ◌∷◌,
  ◌++◌, ◌==◌, ltb, if◌then◌else◌, add32, sub32, arith, Bool-cases, inl, inr, length,
}
use os_project2_test.Console.{Input, store_byte, newline, store_key, console_key, consoleintr}
use os_project2_test.Console.Ring.{ring, ring-snoc, length-ring, ring-append, ring-store}
use os_project2_test.Console.Lines.{
  Lines, lines_of, has_newline, IsValid, enter, type_key, has_newline-snoc, kill-Result,
  erase-Result,
}

module _ (s : Input) (v : IsValid s) (c : ℕ) (room_left : ltb (sub32 s.e s.r) 128 ≡ true) where
  abbrev stored : ℕ → ℕ
  stored = store_byte s.buf (s.e % 128) c

  ready-stored : ring stored s.r (sub32 s.w s.r) ≡ ring s.buf s.r (sub32 s.w s.r)
  ready-stored =
      ring-store s.buf s.r (sub32 s.w s.r) (s.e % 128) c
        (λ k h. let ok = v.words in let o = v.order in ground arith)

  line-stored : ring stored s.w (sub32 (add32 s.e 1) s.w) ≡ ring s.buf s.w (sub32 s.e s.w) ++ c ∷ []
  line-stored =
      let ok = v.words in
      let o = v.order in
      let n : sub32 (add32 s.e 1) s.w ≡ sub32 s.e s.w + 1 = ground arith in
      let i : add32 s.w (sub32 s.e s.w) % 128 ≡ s.e % 128 = ground arith in
      let self : (s.e % 128 == s.e % 128) ≡ true = ground arith in
      ap (ring stored s.w) n
      ∙ ring-snoc stored s.w (sub32 s.e s.w)
      ∙ ap₂ (λ l x. l ++ x ∷ [])
          (ring-store s.buf s.w (sub32 s.e s.w) (s.e % 128) c (λ k h. ground arith))
          (ap stored i ∙ ap (λ b. if b then c else s.buf (s.e % 128)) self)

  all-stored :
      ring stored s.r (sub32 (add32 s.e 1) s.r)
      ≡ ring s.buf s.r (sub32 s.w s.r) ++ (ring s.buf s.w (sub32 s.e s.w) ++ c ∷ [])
  all-stored =
      let ok = v.words in
      let o = v.order in
      let n : sub32 (add32 s.e 1) s.r ≡ sub32 s.w s.r + sub32 (add32 s.e 1) s.w = ground arith in
      let i : add32 s.r (sub32 s.w s.r) ≡ s.w = ground arith in
      ap (ring stored s.r) n
      ∙ ring-append stored s.r (sub32 s.w s.r) (sub32 (add32 s.e 1) s.w)
      ∙ ap₂ (λ x y. x ++ y) ready-stored
          (ap (λ k. ring stored k (sub32 (add32 s.e 1) s.w)) i ∙ line-stored)

  ends-line :
      (c == 10 || c == 4 || add32 s.e 1 == add32 s.r 128)
      ≡ (c == 10 || c == 4 || length (lines_of s).ready + length (lines_of s).line + 1 == 128)
  ends-line =
      let ok = v.words in
      let o = v.order in
      let a = length-ring s.buf s.r (sub32 s.w s.r) in
      let b = length-ring s.buf s.w (sub32 s.e s.w) in
      let n : (add32 s.e 1 == add32 s.r 128)
          ≡ (length (lines_of s).ready + length (lines_of s).line + 1 == 128) =
        ground arith in
      ap (λ x. c == 10 || c == 4 || x) n

  store_key-Result :
      (lines_of (store_key s c).0 ≡ (enter (lines_of s) c).0)
      × ((store_key s c).1 ≡ (enter (lines_of s) c).1)
      × IsValid (store_key s c).0
  unfolding store_key enter ring has_newline
  store_key-Result =
      let ok = v.words in
      let o = v.order in
      elim (Bool-cases (c == 10 || c == 4 || add32 s.e 1 == add32 s.r 128)) [
        | inl done ↦
            let done' = sym ends-line ∙ done in
            let z : sub32 (add32 s.e 1) (add32 s.e 1) ≡ 0 = ground arith in
            rw (done, done')
              (
                ap₂ (λ x n. record { ready = x; line = ring stored (add32 s.e 1) n }) all-stored z,
                refl,
                record {
                  words = ground arith;
                  order = omega arith;
                  room = ground arith;
                  edits = ap (λ n. has_newline (ring stored (add32 s.e 1) n)) z;
                },
              )
        | inr more ↦
            let more' = sym ends-line ∙ more in
            let plain = has_newline-snoc (ring s.buf s.w (sub32 s.e s.w)) c in
            let old = v.edits in
            rw (more, more')
              (
                ap₂ (λ x y. record { ready = x; line = y }) ready-stored line-stored,
                refl,
                record {
                  words = ground arith;
                  order = ground arith;
                  room = ground arith;
                  edits = ap has_newline line-stored ∙ ground arith;
                },
              )
      ]

-- One key is typed into the lines.
pub console_key-lines :
    (s : Input) (c : ℕ)
    → IsValid s
    → (lines_of (console_key s c).0 ≡ (type_key (lines_of s) c).0)
      × ((console_key s c).1 ≡ (type_key (lines_of s) c).1)
      × IsValid (console_key s c).0
unfolding console_key type_key
console_key-lines s c v = elim (Bool-cases (c == 16)) [
  | inl p ↦ rw p (refl, refl, v)
  | inr np ↦ elim (Bool-cases (c == 21)) [
    | inl u ↦ let (e, v') = kill-Result s v in rw (np, u) (e, refl, v')
    | inr nu ↦ elim (Bool-cases (c == 8 || c == 127)) [
      | inl h ↦ let (e, v') = erase-Result s v in rw (np, nu, h) (e, refl, v')
      | inr nh ↦
          let ok = v.words in
          let o = v.order in
          let a = length-ring s.buf s.r (sub32 s.w s.r) in
          let b = length-ring s.buf s.w (sub32 s.e s.w) in
          let n : ltb (sub32 s.e s.r) 128
              ≡ ltb (length (lines_of s).ready + length (lines_of s).line) 128 =
            ground arith in
          elim (Bool-cases (not (c == 0) && ltb (sub32 s.e s.r) 128)) [
            | inl store ↦
                let store' = sym (ap (λ x. not (c == 0) && x) n) ∙ store in
                rw (np, nu, nh, store, store') (store_key-Result s v (newline c) (ground arith))
            | inr drop ↦
                let drop' = sym (ap (λ x. not (c == 0) && x) n) ∙ drop in
                rw (np, nu, nh, drop, drop') (refl, refl, v)
          ]
    ]
  ]
]

-- Keys one after the other.
pub type_keys : List ℕ → Lines → Lines × Bool
type_keys [] q = (q, false)
type_keys (c ∷ cs) q =
    let (q', wakes) = type_key q c in let (q'', wakes') = type_keys cs q' in (q'', wakes || wakes')

-- For a ring whose indices are in order, wrap-around included, and whose edited line has no
-- newline: what `consoleintr` does with any keys is what they do to a list of bytes that can be
-- read and an edited line, where ^U clears the line, backspace drops its last byte, and a
-- newline, ^D or the 128th byte makes the line readable and wakes the readers; the ring stays in
-- order.
pub consoleintr-lines :
    (cs : List ℕ) (s : Input)
    → IsValid s
    → (lines_of (consoleintr cs s).0 ≡ (type_keys cs (lines_of s)).0)
      × ((consoleintr cs s).1 ≡ (type_keys cs (lines_of s)).1)
      × IsValid (consoleintr cs s).0
unfolding consoleintr type_keys
consoleintr-lines [] s v = (refl, refl, v)
consoleintr-lines (c ∷ cs) s v =
    let (e, w, v') = console_key-lines s c v in
    let (e', w', v'') = consoleintr-lines cs (console_key s c).0 v' in
    (
      e' ∙ ap (λ q. (type_keys cs q).0) e,
      ap₂ (λ a b. a || b) w (w' ∙ ap (λ q. (type_keys cs q).1) e),
      v'',
    )
