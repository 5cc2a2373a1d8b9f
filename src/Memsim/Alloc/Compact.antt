-- ===== src/Memsim/Alloc/Compact.antt =====
-- project2/part3/memsim.c: `compact_memory` moves the allocated blocks together.
use xjtu_os_project.Prelude.{ℕ, ◌+◌, ◌-◌, ◌≡◌, refl, List, [], ◌∷◌, arith, total}
use xjtu_os_project.Memsim.State.{FreeBlock, AllocatedBlock}
use xjtu_os_project.Memsim.Merge.Laws.{spans, free_spans, free_size, free_empty}
use xjtu_os_project.Memsim.Alloc.{relocate, tail_block}

abbrev pub alloc_spans : ℕ → AllocatedBlock → ℕ
alloc_spans a b = spans b.start_addr b.size a

abbrev pub alloc_size : AllocatedBlock → ℕ
alloc_size b = b.size

pub relocate-end :
    (next : ℕ) (blocks : List AllocatedBlock)
    → (relocate next blocks).1 ≡ next + total alloc_size blocks
unfolding relocate
relocate-end next [] = omega arith
relocate-end next (ab ∷ rest) = omega (arith, relocate-end (next + ab.size) rest)

pub relocate-spans :
    (a next : ℕ) (blocks : List AllocatedBlock)
    → total (alloc_spans a) (relocate next blocks).0 ≡ spans next (total alloc_size blocks) a
unfolding relocate
relocate-spans a next [] = ground arith
relocate-spans a next (ab ∷ rest) = ground (arith, relocate-spans a (next + ab.size) rest)

-- A weight that does not look at the address is the same after the move.
pub relocate-total :
    (w : AllocatedBlock → ℕ)
    → ((b : AllocatedBlock) (start : ℕ) → w (record b { start_addr = start }) ≡ w b)
    → (next : ℕ) (blocks : List AllocatedBlock) → total w (relocate next blocks).0 ≡ total w blocks
unfolding relocate
relocate-total w same next [] = refl
relocate-total w same next (ab ∷ rest) =
    omega (arith, same ab next, relocate-total w same (next + ab.size) rest)

-- The block behind the last allocated one is the rest of memory, and not empty.
pub record Fills (mem_size next : ℕ) (free : List FreeBlock) : Type 0 where
  pub cover : (a : ℕ) → total (free_spans a) free ≡ spans next (mem_size - next) a
  pub sizes : total free_size free ≡ mem_size - next
  pub empties : total free_empty free ≡ 0

pub tail_block-Fills : (mem_size next : ℕ) → Fills mem_size next (tail_block mem_size next)
unfolding tail_block
tail_block-Fills mem_size next = record {
  cover = λ a. ground arith;
  sizes = ground arith;
  empties = ground arith;
}
