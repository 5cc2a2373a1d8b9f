-- ===== src/Ext2/Bitmap/Free.antt =====
-- project3/src/bitmap.c: `free_block` and `free_inode` on an open image, and a block allocated and
-- freed again.
use xjtu_os_project.Prelude.{
  ℕ, ◌^◌, ◌<◌, ◌≤◌, ◌≡◌, ◌≢◌, refl, sym, ◌∙◌, List, Option, none, some, true, false, arith, ◌==◌,
  ltb, leb, ◌||◌, ◌⊎◌, inl, inr,
}
use xjtu_os_project.Ext2.State.{Fs, Result, ok, err, ◌>>=◌}
use xjtu_os_project.Ext2.Dev.{total_blocks}
use xjtu_os_project.Ext2.Dev.Laws.{IsMounted}
use xjtu_os_project.Ext2.Bitmap.{
  bit_at, inc32, sb_blocks, gd_blocks, sb_inodes, gd_inodes, alloc_block, free_block, free_inode,
  blk_data_start, max_inodes,
}
use xjtu_os_project.Ext2.Bitmap.Store.{
  sb_blocks-IsCounter, gd_blocks-IsCounter, sb_inodes-IsCounter, gd_inodes-IsCounter, give_back_lem,
  bmap_test_lem,
}
use xjtu_os_project.Ext2.Bitmap.Alloc.{IsFlipped, clear-IsFlipped, BlockAllocated, alloc_block_lem}

bit_cases : (bm : List ℕ) (k : ℕ) → (bit_at bm k ≡ 0) ⊎ (bit_at bm k ≡ 1)
unfolding bit_at
bit_cases bm k = omega arith

-- A block that is free stays free, and nothing changes; one that is taken becomes free.
abbrev pub BlockFreed : ℕ → Fs → Option (Result (Unit {0}) × Fs) → Type 0
BlockFreed k s none = ⊥
BlockFreed k s (some (err e, t)) = ⊥
BlockFreed k s (some (ok _, t)) =
    ((bit_at (s.disk.content s.g_sb.block_bitmap_blk) k ≡ 0) × (t ≡ s))
    ⊎ (IsFlipped s.g_sb.block_bitmap_blk k 1 0 s t
        × (t.g_sb.free_blocks ≡ inc32 s.g_sb.free_blocks)
        × (t.g_gd.free_blocks_count ≡ inc32 s.g_gd.free_blocks_count))

abbrev pub InodeFreed : ℕ → Fs → Option (Result (Unit {0}) × Fs) → Type 0
InodeFreed k s none = ⊥
InodeFreed k s (some (err e, t)) = ⊥
InodeFreed k s (some (ok _, t)) =
    ((bit_at (s.disk.content s.g_sb.inode_bitmap_blk) k ≡ 0) × (t ≡ s))
    ⊎ (IsFlipped s.g_sb.inode_bitmap_blk k 1 0 s t
        × (t.g_sb.free_inodes ≡ inc32 s.g_sb.free_inodes)
        × (t.g_gd.free_inodes_count ≡ inc32 s.g_gd.free_inodes_count))

-- A number that is no data block is not looked at.
free_block_outside :
    (k : ℕ) (s : Fs) → (k < blk_data_start) ⊎ (total_blocks ≤ k) → free_block k s ≡ some (ok tt, s)
unfolding free_block
free_block_outside k s h = ground arith

-- On an open image of full size `free_block` of a data block below 4096 changes nothing if the
-- block is free, and else clears its bit, changes no other bit and no block but the bitmap, the
-- superblock and the group descriptor, and adds one to the two counters of free blocks.
pub free_block_lem :
    (k : ℕ) (s : Fs) → IsMounted s → blk_data_start ≤ k → k < 4096 → BlockFreed k s (free_block k s)
unfolding free_block
free_block_lem k s m lo hi = elim (bit_cases (s.disk.content s.g_sb.block_bitmap_blk) k) [
  | inl clear ↦ rw (inside, bmap_test_lem true k s m blk hi, ◌>>=◌, clear) (inl (clear, refl))
  | inr used ↦
      rw
        (
          inside,
          bmap_test_lem true k s m blk hi,
          ◌>>=◌,
          used,
          give_back_lem (sb_blocks inc32) (gd_blocks inc32) (sb_blocks-IsCounter inc32)
              (gd_blocks-IsCounter inc32) true k 0 s m blk hi,
        )
        (inr (
          clear-IsFlipped (sb_blocks inc32) (gd_blocks inc32) (sb_blocks-IsCounter inc32)
              (gd_blocks-IsCounter inc32) s.g_sb.block_bitmap_blk k s m
              (omega (arith, m.block_bitmap)) blk hi used,
          refl,
          refl,
        ))
]
  where
    blk : s.g_sb.block_bitmap_blk < total_blocks
    blk = omega (arith, m.block_bitmap)

    inside : (ltb k blk_data_start || leb total_blocks k) ≡ false
    inside = ground arith

-- On an open image of full size `free_inode` of an inode number from 1 to 256 changes nothing if
-- the inode is free, and else clears its bit, changes no other bit and no block but the bitmap, the
-- superblock and the group descriptor, and adds one to the two counters of free inodes.
pub free_inode_lem :
    (k : ℕ) (s : Fs) → IsMounted s → 1 ≤ k → k ≤ max_inodes → InodeFreed k s (free_inode k s)
unfolding free_inode
free_inode_lem k s m lo hi = elim (bit_cases (s.disk.content s.g_sb.inode_bitmap_blk) k) [
  | inl clear ↦
      rw (inside, bmap_test_lem false k s m blk (omega arith), ◌>>=◌, clear) (inl (clear, refl))
  | inr used ↦
      rw
        (
          inside,
          bmap_test_lem false k s m blk (omega arith),
          ◌>>=◌,
          used,
          give_back_lem (sb_inodes inc32) (gd_inodes inc32) (sb_inodes-IsCounter inc32)
              (gd_inodes-IsCounter inc32) false k 0 s m blk (omega arith),
        )
        (inr (
          clear-IsFlipped (sb_inodes inc32) (gd_inodes inc32) (sb_inodes-IsCounter inc32)
              (gd_inodes-IsCounter inc32) s.g_sb.inode_bitmap_blk k s m
              (omega (arith, m.inode_bitmap)) blk (omega arith) used,
          refl,
          refl,
        ))
]
  where
    blk : s.g_sb.inode_bitmap_blk < total_blocks
    blk = omega (arith, m.inode_bitmap)

    inside : (k == 0 || ltb max_inodes k) ≡ false
    inside = ground arith

-- The disk's bitmap and counters are those of `s`.
pub record IsRestored (s u : Fs) : Type 0 where
  pub bits :
      (j : ℕ)
      → bit_at (u.disk.content s.g_sb.block_bitmap_blk) j
        ≡ bit_at (s.disk.content s.g_sb.block_bitmap_blk) j
  pub sb_count : u.g_sb.free_blocks ≡ s.g_sb.free_blocks
  pub gd_count : u.g_gd.free_blocks_count ≡ s.g_gd.free_blocks_count
  pub others :
      (b : ℕ) → b ≢ s.g_sb.block_bitmap_blk → b ≢ 1 → b ≢ 2 → u.disk.content b ≡ s.disk.content b

abbrev pub Restores : Fs → Option (Result (Unit {0}) × Fs) → Type 0
Restores s (some (ok _, u)) = IsRestored s u
Restores s _ = ⊥

same : (s t : Fs) → IsMounted s → IsMounted t → t.g_sb.block_bitmap_blk ≡ s.g_sb.block_bitmap_blk
same s t m n = n.block_bitmap ∙ sym m.block_bitmap

restored :
    (s t : Fs) (k : ℕ) (r : Option (Result (Unit {0}) × Fs))
    → s.g_sb.free_blocks < 2 ^ 32
    → s.g_gd.free_blocks_count < 2 ^ 32
    → IsMounted s
    → BlockAllocated s (some (ok k, t))
    → BlockFreed k t r
    → Restores s r
restored s t k none hs hg m a f = f
restored s t k (some (err e, u)) hs hg m a f = f
restored s t k (some (ok _, u)) hs hg m (lo, hi, full, taken, sb, gd) (inl (clear, _)) =
    let after : bit_at (t.disk.content s.g_sb.block_bitmap_blk) k ≡ 0 =
      rw (same s t m taken.mounted) at clear in
    absurd (ground (arith, taken.after k))
restored s t k (some (ok _, u)) hs hg m (lo, hi, full, taken, sb, gd) (inr (freed, sb', gd')) =
    record {
      bits = λ j. ground (arith, rw at_s at (freed.after j), taken.after j, taken.before);
      sb_count = omega (arith, sb, sb');
      gd_count = omega (arith, gd, gd');
      others = λ b p q r. freed.others b (rw at_s p) q r ∙ taken.others b p q r;
    }
  where
    at_s : t.g_sb.block_bitmap_blk ≡ s.g_sb.block_bitmap_blk
    at_s = same s t m taken.mounted

-- A block that `alloc_block` has just returned is given back by `free_block`: afterwards the
-- bitmap, the two counters of free blocks, and every block of the disk but the bitmap, the
-- superblock and the group descriptor are what they were before the allocation.
pub free_block-alloc_block :
    (s t : Fs) (k : ℕ)
    → IsMounted s
    → s.g_sb.free_blocks < 2 ^ 32
    → s.g_gd.free_blocks_count < 2 ^ 32
    → alloc_block s ≡ some (ok k, t)
    → Restores s (free_block k t)
free_block-alloc_block s t k m hs hg e =
    let a : BlockAllocated s (some (ok k, t)) = rw e at (alloc_block_lem s m) in
    restored s t k (free_block k t) hs hg m a (free_block_lem k t a.3.mounted a.0 a.1)
