-- ===== src/Memsim/Alloc/Fit.antt =====
-- project2/part3/memsim.c: what the loop of `allocate_mem` takes from the free list.
use xjtu_os_project.Prelude.{
  ℕ, ◌+◌, ◌<◌, ◌≤◌, ◌≡◌, ◌⊎◌, List, [], ◌∷◌, Option, none, some, arith, leb, total, inl, inr,
  Bool-cases, All,
}
use xjtu_os_project.Memsim.State.{FreeBlock}
use xjtu_os_project.Memsim.Merge.Laws.{spans, free_spans, free_size, free_empty}
use xjtu_os_project.Memsim.Alloc.{Grant, grant, behind, take_fit}

-- The loop takes exactly the granted addresses out of `free`; what it grants is at least what was
-- asked for, and more only where the rest would be a fragment below `min_slice`.
pub record Takes (min_slice size : ℕ) (free : List FreeBlock) (g : Grant) : Type 0 where
  pub cover :
      (a : ℕ)
      → spans g.start_addr g.size a + total (free_spans a) g.free ≡ total (free_spans a) free
  pub sizes : g.size + total free_size g.free ≡ total free_size free
  pub empties : total free_empty g.free ≤ total free_empty free
  pub enough : size ≤ g.size
  pub slack : (g.size ≡ size) ⊎ (g.size < size + min_slice)

abbrev pub FitResult : ℕ → ℕ → List FreeBlock → Option Grant → Type 0
FitResult min_slice size free none = All (λ b. b.size < size) free
FitResult min_slice size free (some g) = Takes min_slice size free g

grant-Takes :
    (min_slice size : ℕ) (cur : FreeBlock) (next : List FreeBlock)
    → size ≤ cur.size
    → Takes min_slice size (cur ∷ next) (grant min_slice size cur next)
unfolding grant
grant-Takes min_slice size cur next h = record {
  cover = λ a. ground arith;
  sizes = ground arith;
  empties = ground arith;
  enough = ground arith;
  slack = ground arith;
}

behind-FitResult :
    (min_slice size : ℕ) (cur : FreeBlock) (next : List FreeBlock) (r : Option Grant)
    → cur.size < size
    → FitResult min_slice size next r
    → FitResult min_slice size (cur ∷ next) (behind cur r)
behind-FitResult min_slice size cur next none h f = (h, f)
behind-FitResult min_slice size cur next (some g) h f = record {
  cover = λ a. omega (arith, f.cover a);
  sizes = omega (arith, f.sizes);
  empties = omega (arith, f.empties);
  enough = f.enough;
  slack = f.slack;
}

-- The loop of `allocate_mem` takes nothing only where every free block is smaller than `size`. What
-- it takes has at least `size` words, and more only where the rest would have been a fragment below
-- `min_slice`; its addresses are those, each as often, that the free list loses, and the free list
-- gets no new empty block.
pub take_fit-FitResult :
    (min_slice size : ℕ) (free : List FreeBlock)
    → FitResult min_slice size free (take_fit min_slice size free)
unfolding take_fit
take_fit-FitResult min_slice size [] = tt
take_fit-FitResult min_slice size (cur ∷ next) = elim (Bool-cases (leb size cur.size)) [
  | inl e ↦ rw e (grant-Takes min_slice size cur next (ground arith))
  | inr e ↦ rw e (
      behind-FitResult min_slice size cur next (take_fit min_slice size next) (ground arith)
        (take_fit-FitResult min_slice size next))
]
