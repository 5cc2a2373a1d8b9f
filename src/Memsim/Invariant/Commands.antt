-- ===== src/Memsim/Invariant/Commands.antt =====
-- project2/part3/memsim.c: every command of the menu keeps the invariant, and returns.
use xjtu_os_project.Prelude.{
  ℕ, zero, suc, ◌+◌, ◌≤◌, ◌≡◌, refl, List, [], ◌∷◌, Bool, Option, none, some, arith, if◌then◌else◌,
  ltb, ◌==◌, total, inl, inr, Option-cases, true, false, ℤ, pos, negsuc,
}
use xjtu_os_project.Memsim.State.{
  FreeBlock, AllocatedBlock, Algorithm, first_fit, State, init, init_free_block,
}
use xjtu_os_project.Memsim.State.Orders.{rearrange_sorts, prefers}
use xjtu_os_project.Memsim.Sort.Laws.{IsOrdered}
use xjtu_os_project.Memsim.Alloc.{Placed}
use xjtu_os_project.Memsim.Invariant.Partition.{
  IsPartition, rearrange-IsPartition, free_mem-IsPartition, total-dispose,
}
use xjtu_os_project.Memsim.Invariant.Allocation.{Shares, IsPlaced, Outcome, allocate_mem-Outcome}
use xjtu_os_project.Memsim.Process.{
  positive, resize, set_mem_size, algorithm_of, set_algorithm, set_min_slice, toggle_auto_compact,
  enter, new_process, find_process, kill_process, Command, mem_size, algorithm, create, kill,
  min_slice, display, compact_toggle, wrong, step, run,
}

abbrev pub above : ℕ → AllocatedBlock → ℕ
above n b = if ltb n b.pid then 1 else 0

abbrev pub has_pid : ℕ → AllocatedBlock → ℕ
has_pid n b = if b.pid == n then 1 else 0

-- The memory is shared out; pids are at most `pid_seq`, and no two processes have one pid; while
-- the size of memory may still be set nothing is allocated; and the free list is in the order of
-- the algorithm.
pub record Inv (s : State) : Type 0 where
  pub shares : Shares s
  pub fresh : total (above s.pid_seq) s.allocated_block_head ≡ 0
  pub distinct : (pid : ℕ) → total (has_pid pid) s.allocated_block_head ≤ 1
  pub unlocked : s.lock_set_size ≡ false → s.allocated_block_head ≡ []
  pub ordered : IsOrdered (prefers s.ma_algorithm) s.free_block

whole-IsPartition : (n : ℕ) → IsPartition (suc n) (init_free_block (suc n) ∷ []) []
whole-IsPartition n = record {
  cover = λ a. ground arith;
  sizes = omega arith;
  free_full = ground arith;
  alloc_full = refl;
}

one-IsOrdered : (alg : Algorithm) (b : FreeBlock) → IsOrdered (prefers alg) (b ∷ [])
one-IsOrdered alg b = (tt, tt)

pub init-Inv : Inv init
init-Inv = record {
  shares = whole-IsPartition 1023;
  fresh = refl;
  distinct = λ pid. omega arith;
  unlocked = λ h. refl;
  ordered = one-IsOrdered first_fit (init_free_block 1024);
}

resize_lem : (n : ℕ) (free : List FreeBlock) → resize n free ≡ init_free_block n ∷ []
resize_lem n [] = refl
resize_lem n (b ∷ rest) = refl

positive-pos : (i : Option ℤ) {n : ℕ} → positive i ≡ some n → (m : ℕ) × (n ≡ suc m)
positive-pos none e = absurd (ground arith)
positive-pos (some (pos zero)) e = absurd (ground arith)
positive-pos (some (pos (suc m))) e = (m, ground arith)
positive-pos (some (negsuc m)) e = absurd (ground arith)

set_mem_size-Inv : (s : State) (i : Option ℤ) → Inv s → Inv (set_mem_size s i)
unfolding set_mem_size
set_mem_size-Inv s i v = go s.lock_set_size refl
  where
    sized :
        (r : Option ℕ)
        → positive i ≡ r
        → s.lock_set_size ≡ false
        → Inv (elim r [
          | none ↦ s
          | some size ↦ record s { mem_size = size; free_block = resize size s.free_block }
        ])
    sized none p e = v
    sized (some size) p e =
        let (m, q) = positive-pos i p in
        rw (q, resize_lem (suc m) s.free_block)
          (record {
            shares = rw (v.unlocked e) (whole-IsPartition m);
            fresh = v.fresh;
            distinct = v.distinct;
            unlocked = v.unlocked;
            ordered = one-IsOrdered s.ma_algorithm (init_free_block (suc m));
          })

    go :
        (b : Bool)
        → s.lock_set_size ≡ b
        → Inv (
            if b then s else elim (positive i) [
              | none ↦ s
              | some size ↦ record s { mem_size = size; free_block = resize size s.free_block }
            ])
    go true e = v
    go false e = sized (positive i) refl e

set_algorithm-Inv : (s : State) (i : Option ℤ) → Inv s → Inv (set_algorithm s i)
unfolding set_algorithm
set_algorithm-Inv s i v = elim (Option-cases (algorithm_of i)) [
  | inl e ↦ rw (e, set_algorithm) v
  | inr (alg, e) ↦
      rw (e, set_algorithm)
        (record {
          shares = rearrange-IsPartition alg v.shares;
          fresh = v.fresh;
          distinct = v.distinct;
          unlocked = λ h. absurd (ground arith);
          ordered = (rearrange_sorts alg s.free_block).1;
        })
]

set_min_slice-Inv : (s : State) (i : Option ℤ) → Inv s → Inv (set_min_slice s i)
unfolding set_min_slice
set_min_slice-Inv s none v = v
set_min_slice-Inv s (some (negsuc n)) v = v
set_min_slice-Inv s (some (pos n)) v = record {
  shares = v.shares;
  fresh = v.fresh;
  distinct = v.distinct;
  unlocked = v.unlocked;
  ordered = v.ordered;
}

toggle_auto_compact-Inv : (s : State) → Inv s → Inv (toggle_auto_compact s)
unfolding toggle_auto_compact
toggle_auto_compact-Inv s v = record {
  shares = v.shares;
  fresh = v.fresh;
  distinct = v.distinct;
  unlocked = v.unlocked;
  ordered = v.ordered;
}

above_mono :
    (n : ℕ) (bs : List AllocatedBlock) → total (above n) bs ≡ 0 → total (above (n + 1)) bs ≡ 0
above_mono n [] h = refl
above_mono n (b ∷ bs) h = ground (arith, above_mono n bs)

no_pid_above :
    (n : ℕ) (bs : List AllocatedBlock) → total (above n) bs ≡ 0 → total (has_pid (n + 1)) bs ≡ 0
no_pid_above n [] h = refl
no_pid_above n (b ∷ bs) h = ground (arith, no_pid_above n bs)

bumped-Inv : (s : State) → Inv s → Inv (record s { pid_seq = s.pid_seq + 1 })
bumped-Inv s v = record {
  shares = v.shares;
  fresh = above_mono s.pid_seq s.allocated_block_head v.fresh;
  distinct = v.distinct;
  unlocked = v.unlocked;
  ordered = v.ordered;
}

-- The pid of the new process is above all others.
enter-Inv :
    (s t : State) (size : ℕ) (p : Placed)
    → Inv s
    → IsPlaced (record s { pid_seq = s.pid_seq + 1 }) size t p
    → Inv (enter (s.pid_seq + 1) (t, some p))
enter-Inv s t size p v o = record {
  shares = o.shares (s.pid_seq + 1);
  fresh = ground (
    arith,
    o.rest.pid_seq,
    o.rest.pids (λ k. if ltb (s.pid_seq + 1) k then 1 else 0),
    above_mono s.pid_seq s.allocated_block_head v.fresh,
  );
  distinct = λ pid. ground (
    arith,
    o.rest.pids (λ k. if k == pid then 1 else 0),
    v.distinct pid,
    no_pid_above s.pid_seq s.allocated_block_head v.fresh,
  );
  unlocked = λ h. absurd (ground arith);
  ordered = o.ordered;
}

abbrev pub Returns : (State → Type 0) → Option State → Type 0
Returns P none = ⊥
Returns P (some t) = P t

entered :
    (s : State) (size : ℕ) (r : Option (State × Option Placed))
    → Inv s
    → Outcome (record s { pid_seq = s.pid_seq + 1 }) size r
    → Returns Inv (elim r [ none ↦ none | some q ↦ some (enter (s.pid_seq + 1) q) ])
entered s size none v o = o
entered s size (some (t, none)) v o = rw o.same (bumped-Inv s v)
entered s size (some (t, some p)) v o = enter-Inv s t size p v o

new_process-Inv : (s : State) (i : Option ℤ) → Inv s → Returns Inv (new_process s i)
unfolding new_process
new_process-Inv s i v = elim (Option-cases (positive i)) [
  | inl e ↦ rw (e, new_process) (bumped-Inv s v)
  | inr (size, e) ↦
      let (m, q) = positive-pos i e in
      rw (e, new_process)
        (entered s size _ v (allocate_mem-Outcome 0 _ size (omega arith) (bumped-Inv s v).shares))
]

kill_process-Inv : (s : State) (i : Option ℤ) → Inv s → Inv (kill_process s i)
unfolding kill_process
kill_process-Inv s none v = v
kill_process-Inv s (some (negsuc n)) v = v
kill_process-Inv s (some (pos pid)) v =
    elim (Option-cases (find_process pid s.allocated_block_head)) [
      | inl e ↦ rw (e, kill_process) v
      | inr (ab, e) ↦
          rw (e, kill_process)
            (record {
              shares = free_mem-IsPartition pid e s.ma_algorithm v.shares;
              fresh =
                  omega (
                    arith,
                    total-dispose (above s.pid_seq) pid s.allocated_block_head ab e,
                    v.fresh,
                  );
              distinct = λ k.
                  omega (
                    arith,
                    total-dispose (has_pid k) pid s.allocated_block_head ab e,
                    v.distinct k,
                  );
              unlocked = λ h. absurd (ground arith);
              ordered = (rearrange_sorts s.ma_algorithm _).1;
            })
    ]

-- From a state with the invariant every command of the menu returns a state with the invariant:
-- memory stays shared out, pids stay distinct, and the free list stays in order.
pub step-Inv : (s : State) (c : Command) → Inv s → Returns Inv (step s c)
unfolding step
step-Inv s (mem_size i) v = set_mem_size-Inv s i v
step-Inv s (algorithm i) v = set_algorithm-Inv s i v
step-Inv s (create i) v = new_process-Inv s i v
step-Inv s (kill i) v = kill_process-Inv s i v
step-Inv s (min_slice i) v = set_min_slice-Inv s i v
step-Inv s compact_toggle v = toggle_auto_compact-Inv s v
step-Inv s display v = v
step-Inv s wrong v = v

Returns-bind :
    (r : Option State) (f : State → Option State)
    → Returns Inv r
    → ((t : State) → Inv t → Returns Inv (f t))
    → Returns Inv (elim r [ none ↦ none | some t ↦ f t ])
Returns-bind none f h k = h
Returns-bind (some t) f h k = k t h

run-Inv : (s : State) (cs : List Command) → Inv s → Returns Inv (run s cs)
unfolding run
run-Inv s [] v = v
run-Inv s (c ∷ cs) v = Returns-bind (step s c) (λ t. run t cs) (step-Inv s c v) (λ t. run-Inv t cs)

-- Whatever is typed into the menu of a program that has just started, every command returns, and
-- in the state reached each address of memory lies in exactly one block, free or allocated.
pub run-init-Inv : (cs : List Command) → Returns Inv (run init cs)
run-init-Inv cs = run-Inv init cs init-Inv
