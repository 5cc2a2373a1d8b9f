-- ===== src/Memsim/Policy.antt =====
-- project2/part3/memsim.c: which block each of the three algorithms takes.
use xjtu_os_project.Prelude.{
  ℕ, suc, ◌≤◌, ◌≡◌, refl, List, [], ◌∷◌, some, arith, leb, inl, inr, Bool-cases, false, All, Has,
}
use xjtu_os_project.Memsim.State.{
  FreeBlock, Algorithm, first_fit, best_fit, worst_fit, State, rearrange,
}
use xjtu_os_project.Memsim.State.Orders.{prefers}
use xjtu_os_project.Memsim.Sort.Laws.{IsOrdered}
use xjtu_os_project.Memsim.Alloc.{Grant, grant, Placed, take_fit, allocate_mem}

-- What an algorithm looks for, of `b` against `c`.
abbrev pub IsNoWorse : Algorithm → FreeBlock → FreeBlock → Type 0
IsNoWorse first_fit b c = b.start_addr ≤ c.start_addr
IsNoWorse best_fit b c = b.size ≤ c.size
IsNoWorse worst_fit b c = c.size ≤ b.size

prefers-IsNoWorse :
    (alg : Algorithm) (b c : FreeBlock) → prefers alg c b ≡ false → IsNoWorse alg b c
prefers-IsNoWorse first_fit b c h = ground arith
prefers-IsNoWorse best_fit b c h = ground arith
prefers-IsNoWorse worst_fit b c h = ground arith

IsNoWorse-refl : (alg : Algorithm) (b : FreeBlock) → IsNoWorse alg b b
IsNoWorse-refl first_fit b = omega arith
IsNoWorse-refl best_fit b = omega arith
IsNoWorse-refl worst_fit b = omega arith

-- `b` is a free block of at least `size`, and no free block of at least `size` is better.
pub record IsChoice (alg : Algorithm) (size : ℕ) (free : List FreeBlock) (b : FreeBlock)
    : Type 0 where
  pub member : Has b free
  pub fits : size ≤ b.size
  pub best : All (λ c. size ≤ c.size → IsNoWorse alg b c) free

record Taken (alg : Algorithm) (min_slice size : ℕ) (free : List FreeBlock) : Type 0 where
  g : Grant
  b : FreeBlock
  took : take_fit min_slice size free ≡ some g
  at : g.start_addr ≡ b.start_addr
  choice : IsChoice alg size free b

module _ (alg : Algorithm) (min_slice size : ℕ) where
  head_best :
      (b : FreeBlock) (rest : List FreeBlock)
      → All (λ c. prefers alg c b ≡ false) rest
      → All (λ c. size ≤ c.size → IsNoWorse alg b c) rest
  head_best b [] h = tt
  head_best b (c ∷ rest) h = (λ _. prefers-IsNoWorse alg b c h.0, head_best b rest h.1)

  grant_start :
      (cur : FreeBlock) (next : List FreeBlock)
      → (grant min_slice size cur next).start_addr ≡ cur.start_addr
  unfolding grant
  grant_start cur next = ground arith

  take-Taken :
      (free : List FreeBlock) (c : FreeBlock)
      → IsOrdered (prefers alg) free
      → Has c free
      → size ≤ c.size
      → Taken alg min_slice size free
  unfolding take_fit
  take-Taken [] c o h fits = absurd h
  take-Taken (x ∷ rest) c o h fits = elim (Bool-cases (leb size x.size)) [
    | inl e ↦ record {
      g = grant min_slice size x rest;
      b = x;
      took = rw e;
      at = grant_start x rest;
      choice = record {
        member = inl refl;
        fits = ground arith;
        best = (λ _. IsNoWorse-refl alg x, head_best x rest o.0);
      };
    }
    | inr e ↦
        let later : Has c rest = elim h [ inl same ↦ absurd (ground arith) | inr r ↦ r ] in
        let t = take-Taken rest c o.1 later fits in
        record {
          g = record t.g { free = x ∷ t.g.free };
          b = t.b;
          took = rw (e, t.took);
          at = t.at;
          choice = record {
            member = inr t.choice.member;
            fits = t.choice.fits;
            best = (λ p. absurd (ground arith), t.choice.best);
          };
        }
  ]

-- Where the free list is in the order of the algorithm and some free block is large enough,
-- `allocate_mem` places the request at the start of such a block, without compaction: under FF the
-- one with the lowest address, under BF the smallest, under WF the largest.
pub allocate_mem_chooses :
    (fuel : ℕ) (s : State) (size : ℕ) (c : FreeBlock)
    → IsOrdered (prefers s.ma_algorithm) s.free_block
    → Has c s.free_block
    → size ≤ c.size
    → (b : FreeBlock) × (t : State) × (p : Placed) × (allocate_mem (suc fuel) s size
        ≡ some (t, some p))
      × (p.start_addr ≡ b.start_addr)
      × (t.allocated_block_head ≡ s.allocated_block_head)
      × IsChoice s.ma_algorithm size s.free_block b
unfolding allocate_mem
allocate_mem_chooses fuel s size c o h fits =
    let t = take-Taken s.ma_algorithm s.min_slice size s.free_block c o h fits in
    (
      t.b,
      record s { free_block = rearrange s.ma_algorithm t.g.free },
      record { start_addr = t.g.start_addr; size = t.g.size },
      rw (t.took, allocate_mem),
      t.at,
      refl,
      t.choice,
    )
