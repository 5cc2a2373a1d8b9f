-- ===== src/Memsim/State.antt =====
-- project2/part3/memsim.c: the global variables, the free list's three orders and `rearrange`.
-- A linked list with one owner is a list, the head first. Sizes and addresses are `int` in C;
-- they stay between 0 and `mem_size`, so they are natural numbers here.
pub mod Orders
use xjtu_os_project.Prelude.{
  ℕ, ◌+◌, ◌≤◌, ◌<◌, Bool, true, false, ◌&&◌, ◌||◌, not, List, [], ◌∷◌, if◌then◌else◌, ltb, leb,
  ◌==◌,
}
use xjtu_os_project.Memsim.Sort.{sort}

-- `free_block_type`, without its `next`.
pub record FreeBlock : Type 0 where
  pub size : ℕ
  pub start_addr : ℕ

-- `allocated_block`. The name in the control block is printed from the pid and never read.
pub record AllocatedBlock : Type 0 where
  pub pid : ℕ
  pub size : ℕ
  pub start_addr : ℕ

-- MA_FF, MA_BF and MA_WF
pub data Algorithm : Type 0 where
  first_fit best_fit worst_fit : Algorithm

pub record State : Type 0 where
  pub free_block : List FreeBlock
  pub allocated_block_head : List AllocatedBlock
  pub mem_size : ℕ
  pub ma_algorithm : Algorithm
  pub pid_seq : ℕ
  pub lock_set_size : Bool
  pub min_slice : ℕ
  pub auto_compact : Bool

abbrev pub default_mem_size : ℕ
default_mem_size = 1024

abbrev pub default_mem_start : ℕ
default_mem_start = 0

abbrev pub init_free_block : ℕ → FreeBlock
init_free_block size = record { size = size; start_addr = default_mem_start }

-- The globals as `main` sets them up.
abbrev pub init : State
init = record {
  free_block = init_free_block default_mem_size ∷ [];
  allocated_block_head = [];
  mem_size = default_mem_size;
  ma_algorithm = first_fit;
  pid_seq = 0;
  lock_set_size = false;
  min_slice = 10;
  auto_compact = true;
}

-- The tests of the four sorts.
abbrev pub addr_before : FreeBlock → FreeBlock → Bool
addr_before c h = ltb c.start_addr h.start_addr

abbrev pub addr_after : FreeBlock → FreeBlock → Bool
addr_after n c = leb n.start_addr c.start_addr

abbrev pub size_asc_before : FreeBlock → FreeBlock → Bool
size_asc_before c h = ltb c.size h.size || (c.size == h.size && ltb c.start_addr h.start_addr)

abbrev pub size_asc_after : FreeBlock → FreeBlock → Bool
size_asc_after n c = ltb n.size c.size || (n.size == c.size && leb n.start_addr c.start_addr)

abbrev pub size_desc_before : FreeBlock → FreeBlock → Bool
size_desc_before c h = ltb h.size c.size || (c.size == h.size && ltb c.start_addr h.start_addr)

abbrev pub size_desc_after : FreeBlock → FreeBlock → Bool
size_desc_after n c = ltb c.size n.size || (n.size == c.size && leb n.start_addr c.start_addr)

abbrev pub alloc_before : AllocatedBlock → AllocatedBlock → Bool
alloc_before c h = ltb c.start_addr h.start_addr

abbrev pub alloc_after : AllocatedBlock → AllocatedBlock → Bool
alloc_after n c = leb n.start_addr c.start_addr

unfoldable pub sort_free_by_addr : List FreeBlock → List FreeBlock
unfolding sort
sort_free_by_addr = sort addr_before addr_after

unfoldable pub sort_free_by_size_asc : List FreeBlock → List FreeBlock
unfolding sort
sort_free_by_size_asc = sort size_asc_before size_asc_after

unfoldable pub sort_free_by_size_desc : List FreeBlock → List FreeBlock
unfolding sort
sort_free_by_size_desc = sort size_desc_before size_desc_after

unfoldable pub sort_alloc_by_addr : List AllocatedBlock → List AllocatedBlock
unfolding sort
sort_alloc_by_addr = sort alloc_before alloc_after

unfoldable pub rearrange : Algorithm → List FreeBlock → List FreeBlock
unfolding sort_free_by_addr sort_free_by_size_asc sort_free_by_size_desc
rearrange first_fit free = sort_free_by_addr free
rearrange best_fit free = sort_free_by_size_asc free
rearrange worst_fit free = sort_free_by_size_desc free

unfoldable pub insert_free_tail : FreeBlock → List FreeBlock → List FreeBlock
insert_free_tail node [] = node ∷ []
insert_free_tail node (p ∷ rest) = p ∷ insert_free_tail node rest

unfoldable pub sum_free_memory : List FreeBlock → ℕ
sum_free_memory [] = 0
sum_free_memory (p ∷ rest) = p.size + sum_free_memory rest
