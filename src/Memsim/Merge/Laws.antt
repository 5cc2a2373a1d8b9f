-- ===== src/Memsim/Merge/Laws.antt =====
-- project2/part3/memsim.c: `merge_free_adjacent` keeps every address of free memory, once, and
-- leaves no two neighbours of the list that touch.
use xjtu_os_project.Prelude.{
  ℕ, ◌+◌, ◌≤◌, ◌≡◌, ◌≢◌, refl, List, [], ◌∷◌, arith, if◌then◌else◌, ltb, leb, ◌==◌, ◌&&◌, total,
  inl, inr, Bool-cases,
}
use xjtu_os_project.Memsim.State.{FreeBlock, sort_free_by_addr}
use xjtu_os_project.Memsim.State.Orders.{total-sort_free_by_addr}
use xjtu_os_project.Memsim.Merge.{merge_from, merge_sorted, merge_free_adjacent}

-- 1 if the `size` addresses from `start` on include `a`, else 0.
abbrev pub spans : ℕ → ℕ → ℕ → ℕ
spans start size a = if leb start a && ltb a (start + size) then 1 else 0

abbrev pub free_spans : ℕ → FreeBlock → ℕ
free_spans a b = spans b.start_addr b.size a

abbrev pub free_size : FreeBlock → ℕ
free_size b = b.size

abbrev pub free_empty : FreeBlock → ℕ
free_empty b = if b.size == 0 then 1 else 0

module _ (w : FreeBlock → ℕ)
    (joins : (c v : FreeBlock)
      → c.start_addr + c.size ≡ v.start_addr
      → w (record c { size = c.size + v.size }) ≤ w c + w v) where
  merge_from-le :
      (cur : FreeBlock) (free : List FreeBlock)
      → total w (merge_from cur free) ≤ w cur + total w free
  unfolding merge_from
  merge_from-le cur [] = omega arith
  merge_from-le cur (v ∷ rest) = ground (
    arith,
    joins cur v,
    merge_from-le (record cur { size = cur.size + v.size }) rest,
    merge_from-le v rest,
  )

  pub total-merge-le : (free : List FreeBlock) → total w (merge_free_adjacent free) ≤ total w free
  unfolding merge_free_adjacent
  total-merge-le free = rw (← total-sort_free_by_addr w free) (go (sort_free_by_addr free))
    where
      go : (sorted : List FreeBlock) → total w (merge_sorted sorted) ≤ total w sorted
      go [] = omega arith
      go (cur ∷ rest) = merge_from-le cur rest

module _ (w : FreeBlock → ℕ)
    (joins : (c v : FreeBlock)
      → c.start_addr + c.size ≡ v.start_addr
      → w (record c { size = c.size + v.size }) ≡ w c + w v) where
  merge_from-total :
      (cur : FreeBlock) (free : List FreeBlock)
      → total w (merge_from cur free) ≡ w cur + total w free
  unfolding merge_from
  merge_from-total cur [] = omega arith
  merge_from-total cur (v ∷ rest) = ground (
    arith,
    joins cur v,
    merge_from-total (record cur { size = cur.size + v.size }) rest,
    merge_from-total v rest,
  )

  pub total-merge : (free : List FreeBlock) → total w (merge_free_adjacent free) ≡ total w free
  unfolding merge_free_adjacent
  total-merge free = rw (← total-sort_free_by_addr w free) (go (sort_free_by_addr free))
    where
      go : (sorted : List FreeBlock) → total w (merge_sorted sorted) ≡ total w sorted
      go [] = omega arith
      go (cur ∷ rest) = merge_from-total cur rest

pub spans-merge :
    (a : ℕ) (free : List FreeBlock)
    → total (free_spans a) (merge_free_adjacent free) ≡ total (free_spans a) free
spans-merge a = total-merge (free_spans a) (λ c v h. ground arith)

pub size-merge :
    (free : List FreeBlock) → total free_size (merge_free_adjacent free) ≡ total free_size free
size-merge = total-merge free_size (λ c v h. omega arith)

pub empty-merge :
    (free : List FreeBlock) → total free_empty (merge_free_adjacent free) ≤ total free_empty free
empty-merge = total-merge-le free_empty (λ c v h. ground arith)

-- No block of the list ends where its successor starts.
abbrev pub IsApart : List FreeBlock → Type 0
IsApart [] = Unit
IsApart (x ∷ []) = Unit
IsApart (x ∷ y ∷ rest) = (x.start_addr + x.size ≢ y.start_addr) × IsApart (y ∷ rest)

-- The head of `merge_from cur free` starts where `cur` does.
record Starts (a : ℕ) (free : List FreeBlock) : Type 0 where
  apart : IsApart free
  head : (x : FreeBlock) × (rest : List FreeBlock) × (free ≡ x ∷ rest) × (x.start_addr ≡ a)

IsApart-cons :
    (x : FreeBlock) {a : ℕ} {free : List FreeBlock}
    → x.start_addr + x.size ≢ a
    → Starts a free
    → IsApart (x ∷ free)
IsApart-cons x ne s = let (y, rest, e, at) = s.head in rw e (rw at ne, rw e at s.apart)

merge_from-Starts :
    (cur : FreeBlock) (free : List FreeBlock) → Starts cur.start_addr (merge_from cur free)
unfolding merge_from
merge_from-Starts cur [] = record { apart = tt; head = (cur, [], refl, refl) }
merge_from-Starts cur (v ∷ rest) = elim (Bool-cases (cur.start_addr + cur.size == v.start_addr)) [
  | inl e ↦ rw e (merge_from-Starts (record cur { size = cur.size + v.size }) rest)
  | inr e ↦ rw e (record {
    apart = IsApart-cons cur (ground arith) (merge_from-Starts v rest);
    head = (cur, _, refl, refl);
  })
]

pub merge-IsApart : (free : List FreeBlock) → IsApart (merge_free_adjacent free)
unfolding merge_free_adjacent
merge-IsApart free = go (sort_free_by_addr free)
  where
    go : (sorted : List FreeBlock) → IsApart (merge_sorted sorted)
    go [] = tt
    go (cur ∷ rest) = (merge_from-Starts cur rest).apart
