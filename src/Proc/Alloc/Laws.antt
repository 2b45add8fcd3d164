-- ===== src/Proc/Alloc/Laws.antt =====
-- What allocproc and fork do to the process table.
use os_project2_test.Prelude.{
  ℕ, zero, suc, ◌≡◌, ◌≢◌, refl, ◌∙◌, Bool, true, Option, none, some, List, [], ◌∷◌, get_elem?,
  get_elem?-modify_self, get_elem?-modify_ne, find_index, arith, add32,
}
use os_project2_test.Proc.{Proc, Kernel, is_unused}
use os_project2_test.Proc.Alloc.{allocproc, start_embryo, give_stack}

pub find_index-get :
    (test : Proc → Bool) (table : List Proc) (i : ℕ)
    → find_index test table ≡ some i
    → (p : Proc) × (get_elem? table i ≡ some p) × (test p ≡ true)
unfolding find_index
find_index-get test [] i e = cc
find_index-get test (p ∷ ps) zero e = (p, refl, hit p ps e)
  where
    hit : (p : Proc) (ps : List Proc) → find_index test (p ∷ ps) ≡ some 0 → test p ≡ true
    hit p ps e = ground arith
find_index-get test (p ∷ ps) (suc i) e = find_index-get test ps i (ground arith)

-- The entry that `allocproc` returns is the first free one, an embryo under the next id with a
-- stack; the other entries are as before.
pub record Allocated (k : Kernel) (page i : ℕ) (k' : Kernel) : Type 0 where
  pub old : Proc
  pub was_free : (get_elem? k.table i ≡ some old) × (is_unused old.state ≡ true)
  pub now :
      get_elem? k'.table i ≡ some (give_stack (some page) (start_embryo k.nextpid k.ticks old))
  pub others : (j : ℕ) → i ≢ j → get_elem? k'.table j ≡ get_elem? k.table j
  pub next : k'.nextpid ≡ add32 k.nextpid 1

abbrev pub is_free : Proc → Bool
is_free p = is_unused p.state

-- If there is a free entry and a page for the stack, `allocproc` returns the first free entry,
-- makes it an embryo under the next id with a stack, leaves the other entries alone and counts
-- `nextpid` up.
pub allocproc-Allocated :
    (k : Kernel) (page i : ℕ)
    → find_index is_free k.table ≡ some i
    → ((allocproc k (some page)).0 ≡ some i) × Allocated k page i (allocproc k (some page)).1
unfolding allocproc
allocproc-Allocated k page i e =
    let (p, here, free) = find_index-get is_free k.table i e in
    rw (e, allocproc)
      (
        refl,
        record {
          old = p;
          was_free = (here, free);
          now = get_elem?-modify_self i _ _ (get_elem?-modify_self i _ k.table here);
          others = λ j d. get_elem?-modify_ne i _ _ d ∙ get_elem?-modify_ne i _ k.table d;
          next = refl;
        },
      )

-- With no free entry, `allocproc` fails and changes nothing. If `kalloc` fails, so does `allocproc`,
-- and the entry is free again.
pub allocproc_fails :
    (k : Kernel) (page : Option ℕ)
    → (find_index is_free k.table ≡ none → allocproc k page ≡ (none, k))
      × ((i : ℕ)
          → find_index is_free k.table ≡ some i
          → (p : Proc) × ((allocproc k none).0 ≡ none)
            × (get_elem? (allocproc k none).1.table i ≡ some p)
            × (is_free p ≡ true))
unfolding allocproc
allocproc_fails k page = (
  λ e. rw (e, allocproc),
  λ i e.
      let (p, here, free) = find_index-get is_free k.table i e in
      (
        give_stack none (start_embryo k.nextpid k.ticks p),
        rw (e, allocproc) (refl),
        rw (e, allocproc) (get_elem?-modify_self i _ _ (get_elem?-modify_self i _ k.table here)),
        refl,
      ),
)
