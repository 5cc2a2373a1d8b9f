-- ===== src/Memsim/Invariant/Partition.antt =====
-- project2/part3/memsim.c: free and allocated blocks share out the memory, and the operations on
-- the two lists keep that.
use xjtu_os_project.Prelude.{
  ℕ, ◌+◌, ◌<◌, ◌≡◌, refl, List, [], ◌∷◌, some, arith, if◌then◌else◌, ◌==◌, total,
}
use xjtu_os_project.Memsim.State.{
  FreeBlock, AllocatedBlock, Algorithm, rearrange, insert_free_tail, sort_free_by_addr,
  sort_alloc_by_addr,
}
use xjtu_os_project.Memsim.State.Orders.{
  total-rearrange, total-sort_free_by_addr, total-insert_free_tail, total-sort_alloc_by_addr,
}
use xjtu_os_project.Memsim.Merge.{merge_free_adjacent}
use xjtu_os_project.Memsim.Merge.Laws.{
  spans, free_spans, free_size, free_empty, spans-merge, size-merge, empty-merge,
}
use xjtu_os_project.Memsim.Alloc.{Grant, relocate, tail_block}
use xjtu_os_project.Memsim.Alloc.Fit.{Takes}
use xjtu_os_project.Memsim.Alloc.Compact.{
  alloc_spans, alloc_size, relocate-end, relocate-spans, relocate-total, tail_block-Fills, Fills,
}
use xjtu_os_project.Memsim.Process.{find_process, dispose}

abbrev pub alloc_empty : AllocatedBlock → ℕ
alloc_empty b = if b.size == 0 then 1 else 0

-- Each address below `mem_size` lies in exactly one block, free or allocated, and no other address
-- lies in one; the sizes add up to `mem_size`; no block is empty.
pub record IsPartition (mem_size : ℕ) (free : List FreeBlock) (allocated : List AllocatedBlock)
    : Type 0 where
  pub cover :
      (a : ℕ) → total (free_spans a) free + total (alloc_spans a) allocated ≡ spans 0 mem_size a
  pub sizes : total free_size free + total alloc_size allocated ≡ mem_size
  pub free_full : total free_empty free ≡ 0
  pub alloc_full : total alloc_empty allocated ≡ 0

module _ {m : ℕ} {free : List FreeBlock} {allocated : List AllocatedBlock} where
  pub rearrange-IsPartition :
      (alg : Algorithm)
      → IsPartition m free allocated
      → IsPartition m (rearrange alg free) allocated
  rearrange-IsPartition alg p = record {
    cover = λ a. omega (arith, total-rearrange (free_spans a) alg free, p.cover a);
    sizes = omega (arith, total-rearrange free_size alg free, p.sizes);
    free_full = omega (arith, total-rearrange free_empty alg free, p.free_full);
    alloc_full = p.alloc_full;
  }

  -- What `allocate_mem` grants may be entered as an allocated block.
  pub grant-IsPartition :
      {min_slice size : ℕ} {g : Grant} (pid : ℕ)
      → 0 < size
      → Takes min_slice size free g
      → IsPartition m free allocated
      → IsPartition m g.free
          (record { pid = pid; size = g.size; start_addr = g.start_addr } ∷ allocated)
  grant-IsPartition pid pos t p = record {
    cover = λ a. omega (arith, t.cover a, p.cover a);
    sizes = omega (arith, t.sizes, p.sizes);
    free_full = omega (arith, t.empties, p.free_full);
    alloc_full = ground (arith, t.enough, p.alloc_full);
  }

pub total-dispose :
    (w : AllocatedBlock → ℕ) (pid : ℕ) (allocated : List AllocatedBlock) (ab : AllocatedBlock)
    → find_process pid allocated ≡ some ab
    → total w allocated ≡ w ab + total w (dispose pid allocated)
unfolding find_process dispose
total-dispose w pid [] ab e = absurd (ground arith)
total-dispose w pid (p ∷ rest) ab e = ground (arith, total-dispose w pid rest ab)

abbrev free_node : AllocatedBlock → FreeBlock
free_node ab = record { size = ab.size; start_addr = ab.start_addr }

abbrev returned : AllocatedBlock → List FreeBlock → List FreeBlock
returned ab free = merge_free_adjacent (sort_free_by_addr (insert_free_tail (free_node ab) free))

ruleset back = (arith, total-rearrange, total-sort_free_by_addr, total-insert_free_tail)

module _ {m : ℕ} {free : List FreeBlock} {allocated : List AllocatedBlock} {ab : AllocatedBlock}
    (pid : ℕ) (found : find_process pid allocated ≡ some ab) where
  -- The block of a process that ends goes back to the free list.
  pub free_mem-IsPartition :
      (alg : Algorithm)
      → IsPartition m free allocated
      → IsPartition m (rearrange alg (returned ab free)) (dispose pid allocated)
  free_mem-IsPartition alg p = record {
    cover = λ a. omega (
      back,
      spans-merge a (sort_free_by_addr (insert_free_tail (free_node ab) free)),
      total-dispose (alloc_spans a) pid allocated ab found,
      p.cover a,
    );
    sizes = omega (
      back,
      size-merge (sort_free_by_addr (insert_free_tail (free_node ab) free)),
      total-dispose alloc_size pid allocated ab found,
      p.sizes,
    );
    free_full = omega (
      back,
      empty-merge (sort_free_by_addr (insert_free_tail (free_node ab) free)),
      total-dispose alloc_empty pid allocated ab found,
      p.free_full,
      p.alloc_full,
    );
    alloc_full = omega (arith, total-dispose alloc_empty pid allocated ab found, p.alloc_full);
  }

module _ {m : ℕ} {free : List FreeBlock} {allocated : List AllocatedBlock} where
  -- Where compaction ends, the free memory begins.
  pub compact-end :
      IsPartition m free allocated
      → (relocate 0 (sort_alloc_by_addr allocated)).1 + total free_size free ≡ m
  compact-end p = omega (
    arith,
    relocate-end 0 (sort_alloc_by_addr allocated),
    total-sort_alloc_by_addr alloc_size allocated,
    p.sizes,
  )

  pub compact-IsPartition :
      (alg : Algorithm)
      → IsPartition m free allocated
      → IsPartition m
          (rearrange alg (tail_block m (relocate 0 (sort_alloc_by_addr allocated)).1))
          (relocate 0 (sort_alloc_by_addr allocated)).0
  compact-IsPartition alg p = rearrange-IsPartition alg (record {
    cover = λ a. ground (
      arith,
      fills.cover a,
      relocate-spans a 0 sorted,
      relocate-end 0 sorted,
      total-sort_alloc_by_addr alloc_size allocated,
      compact-end p,
    );
    sizes = omega (
      arith,
      fills.sizes,
      relocate-total alloc_size (λ b start. refl) 0 sorted,
      total-sort_alloc_by_addr alloc_size allocated,
      p.sizes,
      compact-end p,
    );
    free_full = fills.empties;
    alloc_full = omega (
      arith,
      relocate-total alloc_empty (λ b start. refl) 0 sorted,
      total-sort_alloc_by_addr alloc_empty allocated,
      p.alloc_full,
    );
  })
    where
      sorted : List AllocatedBlock
      sorted = sort_alloc_by_addr allocated

      fills :
          Fills m
            (relocate 0 (sort_alloc_by_addr allocated)).1
            (tail_block m (relocate 0 (sort_alloc_by_addr allocated)).1)
      fills = tail_block-Fills m (relocate 0 (sort_alloc_by_addr allocated)).1
