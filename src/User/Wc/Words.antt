-- ===== src/User/Wc/Words.antt =====
-- The counts are those of the whole text, however it is cut into reads.
use os_project2_test.Prelude.{
  ℕ, ◌+◌, ◌-◌, ◌^◌, ◌≡◌, ◌<◌, refl, sym, ap, ◌∙◌, Bool, true, false, not, ◌&&◌, Option, some, List,
  [], ◌∷◌, ◌++◌, ◌==◌, if◌then◌else◌, length, arith, Bool-cases, inl, inr,
}
use os_project2_test.User.Wc.{Counts, is_space, count_byte, count_bytes, count_reads, wc}

-- A word goes on, or begins, with the next byte.
abbrev pub starts_word : List ℕ → Bool
starts_word [] = false
starts_word (b ∷ s) = not (is_space b)

abbrev add_front : ℕ → List (List ℕ) → List (List ℕ)
add_front b [] = (b ∷ []) ∷ []
add_front b (w ∷ ws) = (b ∷ w) ∷ ws

-- The words of a text: its longest parts without white space.
pub words : List ℕ → List (List ℕ)
words [] = []
words (b ∷ s) =
    let rest = words s in
    if is_space b then rest else if starts_word s then add_front b rest else (b ∷ []) ∷ rest

pub newlines : List ℕ → ℕ
newlines [] = 0
newlines (b ∷ s) = (if b == 10 then 1 else 0) + newlines s

-- Reads that give some bytes each, and then the end.
pub reads_of : List (ℕ × List ℕ) → List (Option (List ℕ)) → List (Option (List ℕ))
reads_of [] later = some [] ∷ later
reads_of ((b, buf) ∷ chunks) later = some (b ∷ buf) ∷ reads_of chunks later

unfoldable pub text_of : List (ℕ × List ℕ) → List ℕ
text_of [] = []
text_of ((b, buf) ∷ chunks) = (b ∷ buf) ++ text_of chunks

length-add_front :
    (b : ℕ) (ws : List (List ℕ)) → 0 < length ws → length (add_front b ws) ≡ length ws
length-add_front b [] h = ground arith
length-add_front b (w ∷ ws) h = refl

words-some : (s : List ℕ) → starts_word s ≡ true → 0 < length (words s)
unfolding words
words-some [] h = ground arith
words-some (b ∷ s) h =
    let sp : is_space b ≡ false = ground arith in
    rw sp (elim (Bool-cases (starts_word s)) [
      | inl more ↦
          let p = words-some s more in
          rw more (let q = length-add_front b (words s) p in omega (arith, q, p))
      | inr last ↦ rw last (omega arith)
    ])

-- How many words begin in a text, after a byte of a word or not.
abbrev begins : Bool → List ℕ → ℕ
begins inword s = if inword && starts_word s then length (words s) - 1 else length (words s)

begins-cons :
    (b : ℕ) (s : List ℕ) (inword : Bool)
    → begins inword (b ∷ s)
      ≡ (if not (is_space b) && not inword then 1 else 0) + begins (not (is_space b)) s
unfolding words
begins-cons b s inword = elim (Bool-cases (is_space b)) [
  | inl sp ↦
      rw sp (elim (Bool-cases inword) [ inl i ↦ rw i (omega arith) | inr o ↦ rw o (omega arith) ])
  | inr letter ↦ elim (Bool-cases (starts_word s)) [
    | inl more ↦
        let p = words-some s more in
        let q = length-add_front b (words s) p in
        elim (Bool-cases inword) [
          | inl i ↦ rw (letter, more, i) (omega (arith, q, p))
          | inr o ↦ rw (letter, more, o) (omega (arith, q, p))
        ]
    | inr last ↦ elim (Bool-cases inword) [
      | inl i ↦ rw (letter, last, i) (omega arith)
      | inr o ↦ rw (letter, last, o) (omega arith)
    ]
  ]
]

-- The counts after a text, from any.
abbrev After : List ℕ → Counts → Counts → Type 0
After text s s' =
    (s'.l ≡ s.l + newlines text) × (s'.w ≡ s.w + begins s.inword text) × (s'.c ≡ s.c + length text)

count_byte-all :
    (b : ℕ) (s : Counts)
    → s.l + 1 < 2 ^ 32
    → s.w + 1 < 2 ^ 32
    → s.c + 1 < 2 ^ 32
    → ((count_byte b s).l ≡ s.l + (if b == 10 then 1 else 0))
      × ((count_byte b s).w ≡ s.w + (if not (is_space b) && not s.inword then 1 else 0))
      × ((count_byte b s).c ≡ s.c + 1)
      × ((count_byte b s).inword ≡ not (is_space b))
unfolding count_byte
count_byte-all b s hl hw hc = elim (Bool-cases (is_space b)) [
  | inl sp ↦ rw sp (ground arith, ground arith, ground arith, refl)
  | inr letter ↦ elim (Bool-cases s.inword) [
    | inl i ↦ rw (letter, i) (ground arith, ground arith, ground arith, refl)
    | inr o ↦ rw (letter, o) (ground arith, ground arith, ground arith, refl)
  ]
]

count_bytes-After :
    (text : List ℕ) (s : Counts)
    → s.l + length text < 2 ^ 32
    → s.w + length text < 2 ^ 32
    → s.c + length text < 2 ^ 32
    → After text s (count_bytes text s)
unfolding count_bytes newlines words
count_bytes-After [] s hl hw hc = (
  omega arith,
  elim (Bool-cases s.inword) [ inl i ↦ rw i (omega arith) | inr o ↦ rw o (omega arith) ],
  omega arith,
)
count_bytes-After (b ∷ text) s hl hw hc =
    let (l, w, c, i) =
      count_byte-all b s (omega (arith, hl)) (omega (arith, hw)) (omega (arith, hc)) in
    let (l', w', c') =
      count_bytes-After text (count_byte b s) (ground arith) (ground arith) (ground arith) in
    let e = begins-cons b text s.inword in
    let q = ap (λ k. begins k text) i in
    (omega (arith, l, l'), omega (arith, w, w', e, q), omega (arith, c, c'))

count_bytes-append :
    (x y : List ℕ) (s : Counts) → count_bytes (x ++ y) s ≡ count_bytes y (count_bytes x s)
unfolding count_bytes
count_bytes-append [] y s = refl
count_bytes-append (b ∷ x) y s = count_bytes-append x y (count_byte b s)

count_reads-text :
    (chunks : List (ℕ × List ℕ)) (later : List (Option (List ℕ))) (s : Counts)
    → count_reads (reads_of chunks later) s ≡ some (count_bytes (text_of chunks) s)
unfolding count_reads reads_of text_of count_bytes
count_reads-text [] later s = refl
count_reads-text ((b, buf) ∷ chunks) later s =
    count_reads-text chunks later (count_bytes buf (count_byte b s))
    ∙ ap some (sym (count_bytes-append buf (text_of chunks) (count_byte b s)))

-- For reads that give some bytes each and then the end, fewer than 2^32 bytes in all, `wc`
-- counts the newlines, the words and the bytes of the whole text, however it is cut into reads.
pub wc_lem :
    (chunks : List (ℕ × List ℕ)) (later : List (Option (List ℕ)))
    → length (text_of chunks) < 2 ^ 32
    → (s : Counts) × (wc (reads_of chunks later) ≡ some s)
      × (s.l ≡ newlines (text_of chunks))
      × (s.w ≡ length (words (text_of chunks)))
      × (s.c ≡ length (text_of chunks))
unfolding wc
wc_lem chunks later h =
    let zero_counts : Counts = record { l = 0; w = 0; c = 0; inword = false } in
    let (l, w, c) =
      count_bytes-After (text_of chunks) zero_counts (omega (arith, h)) (omega (arith, h))
        (omega (arith, h)) in
    (
      count_bytes (text_of chunks) zero_counts,
      count_reads-text chunks later zero_counts,
      omega (arith, l),
      omega (arith, w),
      omega (arith, c),
    )
