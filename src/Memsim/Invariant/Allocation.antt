-- ===== src/Memsim/Invariant/Allocation.antt =====
-- project2/part3/memsim.c: `allocate_mem`, compaction included. It returns after at most two
-- activations, and refuses a request only where it must.
use xjtu_os_project.Prelude.{
  ℕ, suc, ◌-◌, ◌<◌, ◌≤◌, ◌≡◌, refl, ◌∙◌, List, [], ◌∷◌, Option, none, some, arith, leb, ◌&&◌, total,
  inl, inr, Bool-cases, Option-cases, false, All,
}
use xjtu_os_project.Memsim.State.{
  FreeBlock, AllocatedBlock, Algorithm, first_fit, best_fit, worst_fit, State, rearrange,
  sum_free_memory, sort_alloc_by_addr,
}
use xjtu_os_project.Memsim.State.Orders.{
  rearrange_sorts, prefers, sum_free_memory_lem, total-sort_alloc_by_addr,
}
use xjtu_os_project.Memsim.Sort.Laws.{IsOrdered}
use xjtu_os_project.Memsim.Merge.Laws.{free_size}
use xjtu_os_project.Memsim.Alloc.{
  Grant, grant, Placed, take_fit, relocate, tail_block, compact_memory, allocate_mem,
}
use xjtu_os_project.Memsim.Alloc.Fit.{Takes, take_fit-FitResult}
use xjtu_os_project.Memsim.Alloc.Compact.{relocate-total}
use xjtu_os_project.Memsim.Invariant.Partition.{
  IsPartition, rearrange-IsPartition, grant-IsPartition, compact-IsPartition, compact-end,
}

-- What the operations on memory leave alone.
pub record SameRest (s t : State) : Type 0 where
  pub mem_size : t.mem_size ≡ s.mem_size
  pub ma_algorithm : t.ma_algorithm ≡ s.ma_algorithm
  pub pid_seq : t.pid_seq ≡ s.pid_seq
  pub lock_set_size : t.lock_set_size ≡ s.lock_set_size
  pub min_slice : t.min_slice ≡ s.min_slice
  pub auto_compact : t.auto_compact ≡ s.auto_compact
  pub pids :
      (w : ℕ → ℕ)
      → total (λ (b : AllocatedBlock). w b.pid) t.allocated_block_head
        ≡ total (λ (b : AllocatedBlock). w b.pid) s.allocated_block_head

abbrev pub Shares : State → Type 0
Shares s = IsPartition s.mem_size s.free_block s.allocated_block_head

-- The block is placed: entered under any pid, it shares out the memory with the others.
pub record IsPlaced (s : State) (size : ℕ) (t : State) (p : Placed) : Type 0 where
  pub rest : SameRest s t
  pub enough : size ≤ p.size
  pub ordered : IsOrdered (prefers t.ma_algorithm) t.free_block
  pub shares :
      (pid : ℕ)
      → IsPartition t.mem_size t.free_block
          (record { pid = pid; size = p.size; start_addr = p.start_addr } ∷ t.allocated_block_head)

-- The request is refused: nothing has changed, no free block is large enough, and compaction is off
-- or would not help.
pub record IsRefused (s : State) (size : ℕ) (t : State) : Type 0 where
  pub same : t ≡ s
  pub small : All (λ (b : FreeBlock). b.size < size) s.free_block
  pub hopeless : s.auto_compact && leb size (total free_size s.free_block) ≡ false

abbrev pub Outcome : State → ℕ → Option (State × Option Placed) → Type 0
Outcome s size none = ⊥
Outcome s size (some (t, none)) = IsRefused s size t
Outcome s size (some (t, some p)) = IsPlaced s size t p

compact_memory-SameRest : (s : State) → SameRest s (compact_memory s)
unfolding compact_memory
compact_memory-SameRest s = record {
  mem_size = refl;
  ma_algorithm = refl;
  pid_seq = refl;
  lock_set_size = refl;
  min_slice = refl;
  auto_compact = refl;
  pids = λ w.
      relocate-total (λ b. w b.pid) (λ b start. refl) 0 (sort_alloc_by_addr s.allocated_block_head)
      ∙ total-sort_alloc_by_addr (λ b. w b.pid) s.allocated_block_head;
}

pub compact_memory-Shares : (s : State) → Shares s → Shares (compact_memory s)
unfolding compact_memory
compact_memory-Shares s p = compact-IsPartition s.ma_algorithm p

rearrange_one : (alg : Algorithm) (b : FreeBlock) → rearrange alg (b ∷ []) ≡ b ∷ []
unfolding rearrange
rearrange_one first_fit b = refl
rearrange_one best_fit b = refl
rearrange_one worst_fit b = refl

tail_block_some :
    (m next : ℕ) → next < m → tail_block m next ≡ record { start_addr = next; size = m - next } ∷ []
unfolding tail_block
tail_block_some m next h = ground arith

-- After compaction one block holds all the free memory.
compact_memory-free :
    (s : State) (size : ℕ)
    → Shares s
    → 0 < size
    → size ≤ total free_size s.free_block
    → (b : FreeBlock) × ((compact_memory s).free_block ≡ b ∷ []) × (size ≤ b.size)
unfolding compact_memory
compact_memory-free s size p pos h = (
  record { start_addr = next; size = s.mem_size - next },
  rw (tail_block_some s.mem_size next (omega (arith, compact-end p)))
      (rearrange_one s.ma_algorithm _),
  omega (arith, compact-end p),
)
  where
    next : ℕ
    next = (relocate 0 (sort_alloc_by_addr s.allocated_block_head)).1

SameRest-refl : (s : State) (free : List FreeBlock) → SameRest s (record s { free_block = free })
SameRest-refl s free = record {
  mem_size = refl;
  ma_algorithm = refl;
  pid_seq = refl;
  lock_set_size = refl;
  min_slice = refl;
  auto_compact = refl;
  pids = λ w. refl;
}

SameRest-trans : {s t u : State} → SameRest s t → SameRest t u → SameRest s u
SameRest-trans a b = record {
  mem_size = b.mem_size ∙ a.mem_size;
  ma_algorithm = b.ma_algorithm ∙ a.ma_algorithm;
  pid_seq = b.pid_seq ∙ a.pid_seq;
  lock_set_size = b.lock_set_size ∙ a.lock_set_size;
  min_slice = b.min_slice ∙ a.min_slice;
  auto_compact = b.auto_compact ∙ a.auto_compact;
  pids = λ w. b.pids w ∙ a.pids w;
}

placed :
    (s : State) (size : ℕ) (g : Grant)
    → 0 < size
    → Shares s
    → Takes s.min_slice size s.free_block g
    → IsPlaced s size
        (record s { free_block = rearrange s.ma_algorithm g.free })
        (record { start_addr = g.start_addr; size = g.size })
placed s size g pos p t = record {
  rest = SameRest-refl s _;
  enough = t.enough;
  ordered = (rearrange_sorts s.ma_algorithm g.free).1;
  shares = λ pid. rearrange-IsPartition s.ma_algorithm (grant-IsPartition pid pos t p);
}

Outcome-SameRest :
    (s t : State) (size : ℕ) (r : Option (State × Option Placed))
    → SameRest s t
    → (b : FreeBlock) → t.free_block ≡ b ∷ []
    → size ≤ b.size
    → Outcome t size r
    → Outcome s size r
Outcome-SameRest s t size none same b e h o = o
Outcome-SameRest s t size (some (u, none)) same b e h o =
    absurd (omega (arith, (rw e at o.small).0))
Outcome-SameRest s t size (some (u, some p)) same b e h o = record {
  rest = SameRest-trans same o.rest;
  enough = o.enough;
  ordered = o.ordered;
  shares = o.shares;
}

allocate_fit :
    (fuel : ℕ) (s : State) (size : ℕ) (g : Grant)
    → 0 < size
    → Shares s
    → take_fit s.min_slice size s.free_block ≡ some g
    → Outcome s size (allocate_mem (suc fuel) s size)
unfolding allocate_mem
allocate_fit fuel s size g pos p e =
    rw (e, allocate_mem)
      (placed s size g pos p (rw e at (take_fit-FitResult s.min_slice size s.free_block)))

-- A block at the head that is large enough is taken.
take_fit_head :
    (min_slice size : ℕ) (b : FreeBlock) (rest : List FreeBlock)
    → size ≤ b.size
    → (g : Grant) × (take_fit min_slice size (b ∷ rest) ≡ some g)
unfolding take_fit
take_fit_head min_slice size b rest h = (grant min_slice size b rest, ground arith)

allocate_retry :
    (fuel : ℕ) (s : State) (size : ℕ)
    → 0 < size
    → Shares s
    → size ≤ total free_size s.free_block
    → Outcome s size (allocate_mem (suc fuel) (compact_memory s) size)
allocate_retry fuel s size pos p h =
    let (b, e, fits) = compact_memory-free s size p pos h in
    let (g, taken) = take_fit_head (compact_memory s).min_slice size b [] fits in
    Outcome-SameRest s (compact_memory s) size _ (compact_memory-SameRest s) b e fits
      (allocate_fit fuel (compact_memory s) size g pos (compact_memory-Shares s p) (rw e taken))

-- With memory shared out and a positive request, `allocate_mem` returns after at most two
-- activations (the first and the one behind a compaction). Either it places a block of at least the
-- size asked for, which with the other blocks shares out the memory and leaves the free list in the
-- algorithm's order; or it changes nothing, and then no free block is large enough, and automatic
-- compaction is off or all free memory together is too small.
pub allocate_mem-Outcome :
    (fuel : ℕ) (s : State) (size : ℕ)
    → 0 < size
    → Shares s
    → Outcome s size (allocate_mem (suc (suc fuel)) s size)
unfolding allocate_mem
allocate_mem-Outcome fuel s size pos p =
    elim (Option-cases (take_fit s.min_slice size s.free_block)) [
      | inr (g, e) ↦ allocate_fit (suc fuel) s size g pos p e
      | inl e ↦ elim (Bool-cases (s.auto_compact && leb size (sum_free_memory s.free_block))) [
        | inl c ↦
            rw (e, c, allocate_mem)
              (allocate_retry fuel s size pos p (ground (arith, sum_free_memory_lem s.free_block)))
        | inr c ↦
            rw (e, c, allocate_mem)
              (record {
                same = refl;
                small = rw e at (take_fit-FitResult s.min_slice size s.free_block);
                hopeless = rw (← sum_free_memory_lem s.free_block) c;
              })
      ]
    ]
