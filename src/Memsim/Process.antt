-- ===== src/Memsim/Process.antt =====
-- project2/part3/memsim.c: the commands of the menu, and `main`. What `scanf` makes of a line is
-- an argument, `none` where it reads no number; `malloc` succeeds; nothing is printed.
use xjtu_os_project.Prelude.{
  ℕ, zero, suc, ◌+◌, true, not, List, [], ◌∷◌, Option, none, some, if◌then◌else◌, ◌==◌, ℤ, pos,
  negsuc,
}
use xjtu_os_project.Memsim.State.{
  FreeBlock, AllocatedBlock, Algorithm, first_fit, best_fit, worst_fit, State, init_free_block,
  rearrange, insert_free_tail, sort_free_by_addr,
}
use xjtu_os_project.Memsim.Merge.{merge_free_adjacent}
use xjtu_os_project.Memsim.Alloc.{Placed, allocate_mem}

-- `scanf("%d", &size) != 1 || size <= 0` refuses; the rest is a positive number.
abbrev pub positive : Option ℤ → Option ℕ
positive none = none
positive (some (pos zero)) = none
positive (some (pos (suc n))) = some (suc n)
positive (some (negsuc n)) = none

-- The head of the free list, if there is one, becomes all of memory.
abbrev pub resize : ℕ → List FreeBlock → List FreeBlock
resize size [] = init_free_block size ∷ []
resize size (b ∷ rest) = record b { size = size; start_addr = 0 } ∷ []

unfoldable pub set_mem_size : State → Option ℤ → State
set_mem_size s input = if s.lock_set_size then s else elim (positive input) [
  | none ↦ s
  | some size ↦ record s { mem_size = size; free_block = resize size s.free_block }
]

abbrev pub algorithm_of : Option ℤ → Option Algorithm
algorithm_of none = none
algorithm_of (some (negsuc n)) = none
algorithm_of (some (pos n)) =
    if n == 1
    then some first_fit
    else if n == 2
    then some best_fit
    else if n == 3
    then some worst_fit
    else none

unfoldable pub set_algorithm : State → Option ℤ → State
set_algorithm s input = elim (algorithm_of input) [
  | none ↦ s
  | some alg ↦ record s {
    ma_algorithm = alg;
    free_block = rearrange alg s.free_block;
    lock_set_size = true;
  }
]

unfoldable pub set_min_slice : State → Option ℤ → State
set_min_slice s none = s
set_min_slice s (some (negsuc n)) = s
set_min_slice s (some (pos v)) = record s { min_slice = v }

unfoldable pub toggle_auto_compact : State → State
toggle_auto_compact s = record s { auto_compact = not s.auto_compact }

-- The fuel of `allocate_mem`: the call, and the one behind a compaction.
abbrev pub activations : ℕ
activations = 2

-- The end of `new_process`, by what `allocate_mem` returned.
abbrev pub enter : ℕ → State × Option Placed → State
enter pid (s, none) = s
enter pid (s, some p) = record s {
  allocated_block_head =
      record { pid = pid; size = p.size; start_addr = p.start_addr } ∷ s.allocated_block_head;
  lock_set_size = true;
}

-- The pid is used up also where the size is refused.
unfoldable pub new_process : State → Option ℤ → Option State
new_process s input =
    let s' = record s { pid_seq = s.pid_seq + 1 } in
    elim (positive input) [
      | none ↦ some s'
      | some size ↦ elim (allocate_mem activations s' size) [
        | none ↦ none
        | some r ↦ some (enter s'.pid_seq r)
      ]
    ]

unfoldable pub find_process : ℕ → List AllocatedBlock → Option AllocatedBlock
find_process pid [] = none
find_process pid (p ∷ rest) = if p.pid == pid then some p else find_process pid rest

-- `dispose` unlinks the block that `find_process` returned: the first one with its pid.
unfoldable pub dispose : ℕ → List AllocatedBlock → List AllocatedBlock
dispose pid [] = []
dispose pid (cur ∷ rest) = if cur.pid == pid then rest else cur ∷ dispose pid rest

unfoldable pub free_mem : State → AllocatedBlock → State
free_mem s ab =
    let node : FreeBlock = record { size = ab.size; start_addr = ab.start_addr } in
    record s {
      free_block =
          rearrange s.ma_algorithm
            (merge_free_adjacent (sort_free_by_addr (insert_free_tail node s.free_block)));
    }

-- Pids are positive, so a negative number is not found.
unfoldable pub kill_process : State → Option ℤ → State
unfolding find_process dispose free_mem
kill_process s none = s
kill_process s (some (negsuc n)) = s
kill_process s (some (pos pid)) = elim (find_process pid s.allocated_block_head) [
  | none ↦ s
  | some ab ↦
      let s' = free_mem s ab in
      record s' { allocated_block_head = dispose pid s'.allocated_block_head; lock_set_size = true }
]

-- A choice of the menu with the line typed after it. Choice 5 and a wrong choice change nothing.
pub data Command : Type 0 where
  mem_size algorithm create kill min_slice : Option ℤ → Command
  display compact_toggle wrong : Command

unfoldable pub step : State → Command → Option State
unfolding set_mem_size set_algorithm new_process kill_process set_min_slice toggle_auto_compact
step s (mem_size i) = some (set_mem_size s i)
step s (algorithm i) = some (set_algorithm s i)
step s (create i) = new_process s i
step s (kill i) = some (kill_process s i)
step s (min_slice i) = some (set_min_slice s i)
step s compact_toggle = some (toggle_auto_compact s)
step s _ = some s

-- The loop of `main` up to choice 0.
unfoldable pub run : State → List Command → Option State
unfolding step
run s [] = some s
run s (c ∷ rest) = elim (step s c) [ none ↦ none | some s' ↦ run s' rest ]
