-- ===== src/Memsim/Sort.antt =====
-- project2/part3/memsim.c: the list sorts. `sort_free_by_addr`, `sort_free_by_size_asc`,
-- `sort_free_by_size_desc` and `sort_alloc_by_addr` are one insertion sort with two tests each:
-- `before cur h` puts `cur` in front of the head of `sorted`, and `after n cur` lets `p` walk on.
-- A singly linked list with one owner is a list here.
pub mod Laws
use xjtu_os_project.Prelude.{Bool, List, [], ◌∷◌, if◌then◌else◌}

module _ {ℓ} {A : Type ℓ} (before after : A → A → Bool) where
  -- The inner loop: `p` walks on while `p->next` stays in front of `cur`.
  pub walk : A → List A → List A
  walk cur [] = cur ∷ []
  walk cur (n ∷ rest) = if after n cur then n ∷ walk cur rest else cur ∷ n ∷ rest

  -- One round of the outer loop.
  pub insert : A → List A → List A
  unfolding walk
  insert cur [] = cur ∷ []
  insert cur (h ∷ rest) = if before cur h then cur ∷ h ∷ rest else h ∷ walk cur rest

  -- The outer loop, with `sorted` so far.
  pub sort_into : List A → List A → List A
  unfolding insert
  sort_into sorted [] = sorted
  sort_into sorted (cur ∷ rest) = sort_into (insert cur sorted) rest

  unfoldable pub sort : List A → List A
  unfolding sort_into
  sort xs = sort_into [] xs
