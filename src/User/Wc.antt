-- ===== src/User/Wc.antt =====
-- wc.c: the counts of wc. A read gives bytes, of which none mean the end, or fails.
pub mod Words
use os_project2_test.Prelude.{
  ℕ, zero, suc, ◌+◌, ◌^◌, Bool, true, false, not, Option, none, some, List, [], ◌∷◌, ◌==◌,
  if◌then◌else◌, add32,
}
use os_project2_test.User.Ulib.{strchr}

-- `l`, `w`, `c` and `inword`
pub record Counts : Type 0 where
  pub l : ℕ
  pub w : ℕ
  pub c : ℕ
  pub inword : Bool

-- `strchr(" \r\t\n\v", b)`
pub is_space : ℕ → Bool
is_space b = elim (strchr (32 ∷ 13 ∷ 9 ∷ 10 ∷ 11 ∷ []) b) [ none ↦ false | some s ↦ true ]

pub count_byte : ℕ → Counts → Counts
count_byte b s =
    let s' = record s { c = add32 s.c 1; l = if b == 10 then add32 s.l 1 else s.l } in
    if is_space b
    then record s' { inword = false }
    else if not s.inword
    then record s' { w = add32 s.w 1; inword = true }
    else s'

pub count_bytes : List ℕ → Counts → Counts
count_bytes [] s = s
count_bytes (b ∷ buf) s = count_bytes buf (count_byte b s)

-- `none` is a read error, after which nothing is printed but that.
pub count_reads : List (Option (List ℕ)) → Counts → Option Counts
count_reads [] s = some s
count_reads (none ∷ reads) s = none
count_reads (some [] ∷ reads) s = some s
count_reads (some (b ∷ buf) ∷ reads) s = count_reads reads (count_bytes (b ∷ buf) s)

pub wc : List (Option (List ℕ)) → Option Counts
wc reads = count_reads reads (record { l = 0; w = 0; c = 0; inword = false })
