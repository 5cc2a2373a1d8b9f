-- ===== src/Memsim/State/Orders.antt =====
-- project2/part3/memsim.c: the free list's sorts order it and lose no block.
use xjtu_os_project.Prelude.{ℕ, ◌+◌, ◌≡◌, refl, Bool, List, [], ◌∷◌, arith, total}
use mathlib.Core.List.{Perm}
use xjtu_os_project.Memsim.Sort.Laws.{IsOrdered, IsTest, sort-perm, sort-IsOrdered, total-sort}
use xjtu_os_project.Memsim.State.{
  FreeBlock, AllocatedBlock, Algorithm, first_fit, best_fit, worst_fit, addr_before, addr_after,
  size_asc_before, size_asc_after, size_desc_before, size_desc_after, alloc_before, alloc_after,
  rearrange, sort_free_by_addr, sort_alloc_by_addr, insert_free_tail, sum_free_memory,
}

addr-IsTest : IsTest addr_before addr_after
addr-IsTest = record {
  after_eq = λ n c. ground arith;
  asym = λ x y h. ground arith;
  trans = λ x y z h k. ground arith;
}

size_asc-IsTest : IsTest size_asc_before size_asc_after
size_asc-IsTest = record {
  after_eq = λ n c. ground arith;
  asym = λ x y h. ground arith;
  trans = λ x y z h k. ground arith;
}

size_desc-IsTest : IsTest size_desc_before size_desc_after
size_desc-IsTest = record {
  after_eq = λ n c. ground arith;
  asym = λ x y h. ground arith;
  trans = λ x y z h k. ground arith;
}

alloc-IsTest : IsTest alloc_before alloc_after
alloc-IsTest = record {
  after_eq = λ n c. ground arith;
  asym = λ x y h. ground arith;
  trans = λ x y z h k. ground arith;
}

-- The order that an algorithm keeps the free list in.
abbrev pub prefers : Algorithm → FreeBlock → FreeBlock → Bool
prefers first_fit = addr_before
prefers best_fit = size_asc_before
prefers worst_fit = size_desc_before

-- For each of the three algorithms, `rearrange` returns the free blocks it was given, each as
-- often, and in the algorithm's order: by address; by size and then address; by falling size and
-- then address.
pub rearrange_sorts :
    (alg : Algorithm) (free : List FreeBlock)
    → Perm (rearrange alg free) free × IsOrdered (prefers alg) (rearrange alg free)
unfolding rearrange
rearrange_sorts first_fit free =
    (sort-perm addr_before addr_after free, sort-IsOrdered addr_before addr_after addr-IsTest free)
rearrange_sorts best_fit free = (
  sort-perm size_asc_before size_asc_after free,
  sort-IsOrdered size_asc_before size_asc_after size_asc-IsTest free,
)
rearrange_sorts worst_fit free = (
  sort-perm size_desc_before size_desc_after free,
  sort-IsOrdered size_desc_before size_desc_after size_desc-IsTest free,
)

pub total-rearrange :
    (w : FreeBlock → ℕ) (alg : Algorithm) (free : List FreeBlock)
    → total w (rearrange alg free) ≡ total w free
unfolding rearrange
total-rearrange w first_fit free = total-sort addr_before addr_after w free
total-rearrange w best_fit free = total-sort size_asc_before size_asc_after w free
total-rearrange w worst_fit free = total-sort size_desc_before size_desc_after w free

pub total-sort_free_by_addr :
    (w : FreeBlock → ℕ) (free : List FreeBlock) → total w (sort_free_by_addr free) ≡ total w free
unfolding sort_free_by_addr
total-sort_free_by_addr w free = total-sort addr_before addr_after w free

pub sort_free_by_addr-IsOrdered :
    (free : List FreeBlock) → IsOrdered addr_before (sort_free_by_addr free)
unfolding sort_free_by_addr
sort_free_by_addr-IsOrdered free = sort-IsOrdered addr_before addr_after addr-IsTest free

pub total-sort_alloc_by_addr :
    (w : AllocatedBlock → ℕ) (allocated : List AllocatedBlock)
    → total w (sort_alloc_by_addr allocated) ≡ total w allocated
unfolding sort_alloc_by_addr
total-sort_alloc_by_addr w allocated = total-sort alloc_before alloc_after w allocated

pub sort_alloc_by_addr-IsOrdered :
    (allocated : List AllocatedBlock) → IsOrdered alloc_before (sort_alloc_by_addr allocated)
unfolding sort_alloc_by_addr
sort_alloc_by_addr-IsOrdered allocated =
    sort-IsOrdered alloc_before alloc_after alloc-IsTest allocated

pub total-insert_free_tail :
    (w : FreeBlock → ℕ) (node : FreeBlock) (free : List FreeBlock)
    → total w (insert_free_tail node free) ≡ w node + total w free
unfolding insert_free_tail
total-insert_free_tail w node [] = refl
total-insert_free_tail w node (p ∷ rest) = omega (arith, total-insert_free_tail w node rest)

pub sum_free_memory_lem : (free : List FreeBlock) → sum_free_memory free ≡ total (λ b. b.size) free
unfolding sum_free_memory
sum_free_memory_lem [] = refl
sum_free_memory_lem (p ∷ rest) = omega (arith, sum_free_memory_lem rest)
