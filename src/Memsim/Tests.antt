-- ===== src/Memsim/Tests.antt =====
-- project2/part3/memsim.c: runs of the simulator, and its theorems at concrete inputs.
use xjtu_os_project.Prelude.{ℕ, ◌≡◌, refl, List, [], ◌∷◌, some, arith, inl, pos}
use mathlib.Core.List.{◌++◌}
use mathlib.Core.Option
use xjtu_os_project.Memsim.State.{
  FreeBlock, first_fit, best_fit, State, init, rearrange, sort_free_by_addr, sum_free_memory,
  sort_alloc_by_addr, insert_free_tail,
}
use xjtu_os_project.Memsim.Merge.{merge_free_adjacent}
use xjtu_os_project.Memsim.Alloc.{Placed, allocate_mem}
use xjtu_os_project.Memsim.Policy.{IsChoice, allocate_mem_chooses}
use xjtu_os_project.Memsim.Process.{Command, create, kill, run}
use xjtu_os_project.Memsim.Invariant.Allocation.{Outcome, allocate_mem-Outcome}
use xjtu_os_project.Memsim.Invariant.Commands.{Inv, init-Inv, Returns, run-init-Inv}

abbrev piece : ℕ → ℕ → FreeBlock
piece start size = record { size = size; start_addr = start }

abbrev scattered : List FreeBlock
scattered = piece 300 50 ∷ piece 0 100 ∷ piece 100 20 ∷ piece 500 200 ∷ []

by_size :
    rearrange best_fit scattered ≡ piece 100 20 ∷ piece 300 50 ∷ piece 0 100 ∷ piece 500 200 ∷ []
unfolding rearrange
by_size = refl

coalesced : merge_free_adjacent scattered ≡ piece 0 120 ∷ piece 300 50 ∷ piece 500 200 ∷ []
unfolding merge_free_adjacent sort_free_by_addr
coalesced = refl

-- Three processes, of which the second ends.
abbrev commands : List Command
commands =
    create (some (pos 300))
    ∷ create (some (pos 400))
    ∷ create (some (pos 300))
    ∷ kill (some (pos 2))
    ∷ []

-- The request for 420 words is met after a compaction.
after_compaction :
    Option.map (λ (s : State). s.free_block) (run init (commands ++ create (some (pos 420)) ∷ []))
    ≡ some []
unfolding run allocate_mem rearrange merge_free_adjacent sort_free_by_addr sum_free_memory
    sort_alloc_by_addr insert_free_tail
after_compaction = refl

allocate_mem_chooses_example :
    (b : FreeBlock) × (t : State) × (p : Placed) × (allocate_mem 1 init 100 ≡ some (t, some p))
    × (p.start_addr ≡ b.start_addr)
    × (t.allocated_block_head ≡ [])
    × IsChoice first_fit 100 init.free_block b
allocate_mem_chooses_example =
    allocate_mem_chooses 0 init 100 (piece 0 1024) (tt, tt) (inl refl) (omega arith)

allocate_mem-Outcome_example : Outcome init 2000 (allocate_mem 2 init 2000)
allocate_mem-Outcome_example = allocate_mem-Outcome 0 init 2000 (omega arith) (init-Inv.shares)

run-init-Inv_example : Returns Inv (run init commands)
run-init-Inv_example = run-init-Inv commands
