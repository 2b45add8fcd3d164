-- ===== src/Fs/Path.antt =====
-- Path names in fs.c: skipelem, namex, namei and nameiparent. A path is the list of its bytes before
-- the NUL, a name the list of its bytes, 14 at most.
pub mod Names
use os_project2_test.Prelude.{
  ℕ, zero, suc, Bool, true, false, not, ◌&&◌, Option, none, some, List, [], ◌∷◌, ◌==◌, leb,
  if◌then◌else◌, length,
}

abbrev pub take : {A : Type 0} → ℕ → List A → List A
take zero xs = []
take (suc n) [] = []
take (suc n) (x ∷ xs) = x ∷ take n xs

-- `while(*path == '/') path++;`
pub skip_slashes : List ℕ → List ℕ
skip_slashes [] = []
skip_slashes (c ∷ cs) = let rest = skip_slashes cs in if c == 47 then rest else c ∷ cs

-- `while(*path != '/' && *path != 0) path++;`: what is passed over, and what is left.
pub element : List ℕ → List ℕ × List ℕ
element [] = ([], [])
element (c ∷ cs) =
    let (passed, rest) = element cs in if c == 47 then ([], c ∷ cs) else (c ∷ passed, rest)

-- `name` and the path that is returned; `none` is 0.
pub skipelem : List ℕ → Option (List ℕ × List ℕ)
skipelem path = elim (skip_slashes path) [
  | [] ↦ none
  | c ∷ cs ↦
      let (s, rest) = element (c ∷ cs) in
      some (if leb 14 (length s) then take 14 s else s, skip_slashes rest)
]
