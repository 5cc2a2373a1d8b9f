-- ===== src/Memsim/Alloc.antt =====
-- project2/part3/memsim.c: `allocate_mem` and `compact_memory`.
pub mod Fit
pub mod Compact
use xjtu_os_project.Prelude.{
  ℕ, zero, suc, ◌+◌, ◌-◌, ◌≤◌, ◌<◌, Bool, true, false, ◌&&◌, List, [], ◌∷◌, Option, none, some,
  if◌then◌else◌, ltb, leb, ◌==◌,
}
use xjtu_os_project.Memsim.State.{
  FreeBlock, AllocatedBlock, State, default_mem_start, rearrange, sort_alloc_by_addr,
  sum_free_memory,
}

-- What `allocate_mem` writes into `*ab`, and the free list that it leaves.
pub record Grant : Type 0 where
  pub start_addr : ℕ
  pub size : ℕ
  pub free : List FreeBlock

-- The block `cur`, followed by `next`, is large enough for `size`.
unfoldable pub grant : ℕ → ℕ → FreeBlock → List FreeBlock → Grant
grant min_slice size cur next =
    let leftover : ℕ = cur.size - size in
    if leftover == 0
    then record { start_addr = cur.start_addr; size = size; free = next }
    else if ltb leftover min_slice
    then record { start_addr = cur.start_addr; size = cur.size; free = next }
    else record {
      start_addr = cur.start_addr;
      size = size;
      free = record { start_addr = cur.start_addr + size; size = cur.size - size } ∷ next;
    }

abbrev pub behind : FreeBlock → Option Grant → Option Grant
behind cur none = none
behind cur (some g) = some (record g { free = cur ∷ g.free })

-- The loop over the free list: the first block that is large enough is taken.
unfoldable pub take_fit : ℕ → ℕ → List FreeBlock → Option Grant
unfolding grant
take_fit min_slice size [] = none
take_fit min_slice size (cur ∷ next) =
    if leb size cur.size
    then some (grant min_slice size cur next)
    else behind cur (take_fit min_slice size next)

-- The loop of `compact_memory`: the new addresses, and `next` behind the last block.
unfoldable pub relocate : ℕ → List AllocatedBlock → List AllocatedBlock × ℕ
relocate next [] = ([], next)
relocate next (ab ∷ rest) =
    let (moved, end) = relocate (next + ab.size) rest in
    (record ab { start_addr = next } ∷ moved, end)

-- Free memory as one block. `mem_size - next` is an `int`, and not positive where `-` gives 0.
unfoldable pub tail_block : ℕ → ℕ → List FreeBlock
tail_block mem_size next =
    let free_size : ℕ = mem_size - (next - default_mem_start) in
    if ltb 0 free_size then record { start_addr = next; size = free_size } ∷ [] else []

unfoldable pub compact_memory : State → State
unfolding relocate tail_block
compact_memory s =
    let (moved, next) = relocate default_mem_start (sort_alloc_by_addr s.allocated_block_head) in
    record s {
      allocated_block_head = moved;
      free_block = rearrange s.ma_algorithm (tail_block s.mem_size next);
    }

-- `some` of an address and a size is the return value 1 with `ab->start_addr` and `ab->size`.
pub record Placed : Type 0 where
  pub start_addr : ℕ
  pub size : ℕ

-- `none` is a call that needed more than `fuel` activations; `activations` of Process.antt is the
-- fuel that the commands give.
unfoldable pub allocate_mem : ℕ → State → ℕ → Option (State × Option Placed)
unfolding take_fit compact_memory
allocate_mem zero s size = none
allocate_mem (suc fuel) s size = elim (take_fit s.min_slice size s.free_block) [
  | some g ↦ some (
    record s { free_block = rearrange s.ma_algorithm g.free },
    some (record { start_addr = g.start_addr; size = g.size }),
  )
  | none ↦ elim (s.auto_compact && leb size (sum_free_memory s.free_block)) [
    | true ↦ allocate_mem fuel (compact_memory s) size
    | false ↦ some (s, none)
  ]
]
