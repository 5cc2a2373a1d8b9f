-- ===== src/Memsim/Merge.antt =====
-- project2/part3/memsim.c: `merge_free_adjacent`.
pub mod Laws
use xjtu_os_project.Prelude.{ℕ, ◌+◌, List, [], ◌∷◌, if◌then◌else◌, ◌==◌}
use xjtu_os_project.Memsim.State.{FreeBlock, sort_free_by_addr}

-- `cur` absorbs its successor while the two touch, and otherwise moves on.
pub merge_from : FreeBlock → List FreeBlock → List FreeBlock
merge_from cur [] = cur ∷ []
merge_from cur (v ∷ rest) =
    let merged = merge_from (record cur { size = cur.size + v.size }) rest in
    let moved = cur ∷ merge_from v rest in
    if cur.start_addr + cur.size == v.start_addr then merged else moved

pub merge_sorted : List FreeBlock → List FreeBlock
unfolding merge_from
merge_sorted [] = []
merge_sorted (cur ∷ rest) = merge_from cur rest

unfoldable pub merge_free_adjacent : List FreeBlock → List FreeBlock
unfolding merge_sorted
merge_free_adjacent free = merge_sorted (sort_free_by_addr free)
