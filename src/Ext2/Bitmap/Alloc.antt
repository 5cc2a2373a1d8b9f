-- ===== src/Ext2/Bitmap/Alloc.antt =====
-- project3/src/bitmap.c: `alloc_block`, `alloc_inode`, `free_block` and `free_inode` on an open
-- image.
use xjtu_os_project.Prelude.{
  ℕ, ◌<◌, ◌≤◌, ◌≡◌, ◌≢◌, refl, ◌∙◌, List, Option, none, some, arith, if◌then◌else◌, ◌==◌,
}
use xjtu_os_project.Ext2.State.{Fs, Result, ok, err, enospc, ◌>>=◌}
use xjtu_os_project.Ext2.Dev.{total_blocks}
use xjtu_os_project.Ext2.Dev.Laws.{IsMounted, dev_read_block_lem}
use xjtu_os_project.Ext2.Bitmap.{
  bit_at, bit_set, bit_clear, scan, dec32, sb_blocks, gd_blocks, sb_inodes, gd_inodes, alloc_block,
  alloc_inode, blk_data_start, lift,
}
use xjtu_os_project.Ext2.Bitmap.Bits.{
  length-bit_set, bit_set-IsBytes, length-bit_clear, bit_clear-IsBytes, bit_at-bit_set,
  bit_at-bit_clear,
}
use xjtu_os_project.Ext2.Bitmap.Scan.{IsFull, ScanResult, scan-ScanResult}
use xjtu_os_project.Ext2.Bitmap.Store.{
  IsCounter, sb_blocks-IsCounter, gd_blocks-IsCounter, sb_inodes-IsCounter, gd_inodes-IsCounter,
  stored, IsStored, claim_lem, stored-IsStored,
}

-- Bit `k` of the bitmap in block `blk` was `old` and is `new`; no other bit of it and no block but
-- the superblock and the group descriptor has changed.
pub record IsFlipped (blk k old new : ℕ) (s t : Fs) : Type 0 where
  pub before : bit_at (s.disk.content blk) k ≡ old
  pub after :
      (j : ℕ)
      → bit_at (t.disk.content blk) j ≡ (if k == j then new else bit_at (s.disk.content blk) j)
  pub others : (b : ℕ) → b ≢ blk → b ≢ 1 → b ≢ 2 → t.disk.content b ≡ s.disk.content b
  pub mounted : IsMounted t

module _ (on_sb on_gd : Fs → Fs) (sb : IsCounter on_sb) (gd : IsCounter on_gd) (blk k : ℕ) (s : Fs)
    (m : IsMounted s) (lo : 2 < blk) (hi : blk < total_blocks) (inside : k < 4096) where
  set-IsFlipped :
      bit_at (s.disk.content blk) k ≡ 0
      → IsFlipped blk k 0 1 s (stored blk (bit_set (s.disk.content blk) k) on_sb on_gd s)
  set-IsFlipped clear = record {
    before = clear;
    after = λ j. rw st.there (bit_at-bit_set bm k j (m.bytes blk) (ground (arith, m.sized blk)));
    others = st.others;
    mounted = st.mounted;
  }
    where
      bm : List ℕ
      bm = s.disk.content blk

      st : IsStored blk (bit_set bm k) s (stored blk (bit_set bm k) on_sb on_gd s)
      st =
          stored-IsStored on_sb on_gd sb gd blk (bit_set bm k) s m lo hi
            (length-bit_set bm k ∙ m.sized blk) (bit_set-IsBytes bm k (m.bytes blk))

  pub clear-IsFlipped :
      bit_at (s.disk.content blk) k ≡ 1
      → IsFlipped blk k 1 0 s (stored blk (bit_clear (s.disk.content blk) k) on_sb on_gd s)
  clear-IsFlipped used = record {
    before = used;
    after = λ j. rw st.there (bit_at-bit_clear bm k j (m.bytes blk) (ground (arith, m.sized blk)));
    others = st.others;
    mounted = st.mounted;
  }
    where
      bm : List ℕ
      bm = s.disk.content blk

      st : IsStored blk (bit_clear bm k) s (stored blk (bit_clear bm k) on_sb on_gd s)
      st =
          stored-IsStored on_sb on_gd sb gd blk (bit_clear bm k) s m lo hi
            (length-bit_clear bm k ∙ m.sized blk) (bit_clear-IsBytes bm k (m.bytes blk))

-- What `alloc_block` does to an image: `none` only where every block that has a bit is taken, and
-- no error; else the block returned is the first free one.
abbrev pub BlockAllocated : Fs → Option (Result ℕ × Fs) → Type 0
BlockAllocated s none = IsFull (s.disk.content s.g_sb.block_bitmap_blk) blk_data_start 4096
BlockAllocated s (some (err e, t)) = ⊥
BlockAllocated s (some (ok k, t)) =
    (blk_data_start ≤ k)
    × (k < 4096)
    × IsFull (s.disk.content s.g_sb.block_bitmap_blk) blk_data_start k
    × IsFlipped s.g_sb.block_bitmap_blk k 0 1 s t
    × (t.g_sb.free_blocks ≡ dec32 s.g_sb.free_blocks)
    × (t.g_gd.free_blocks_count ≡ dec32 s.g_gd.free_blocks_count)

-- What `alloc_inode` does: it changes nothing and returns FS_ENOSPC only where all inodes are
-- taken, and else returns the first free one.
abbrev pub InodeAllocated : Fs → Option (Result ℕ × Fs) → Type 0
InodeAllocated s none = ⊥
InodeAllocated s (some (err e, t)) =
    (e ≡ enospc) × (t ≡ s) × IsFull (s.disk.content s.g_sb.inode_bitmap_blk) 1 257
InodeAllocated s (some (ok k, t)) =
    (1 ≤ k)
    × (k ≤ 256)
    × IsFull (s.disk.content s.g_sb.inode_bitmap_blk) 1 k
    × IsFlipped s.g_sb.inode_bitmap_blk k 0 1 s t
    × (t.g_sb.free_inodes ≡ dec32 s.g_sb.free_inodes)
    × (t.g_gd.free_inodes_count ≡ dec32 s.g_gd.free_inodes_count)

module _ (s : Fs) (m : IsMounted s) where
  block_bm : List ℕ
  block_bm = s.disk.content s.g_sb.block_bitmap_blk

  inode_bm : List ℕ
  inode_bm = s.disk.content s.g_sb.inode_bitmap_blk

  block_found :
      (r : Option (Option ℕ))
      → scan 4542 blk_data_start block_bm ≡ r
      → ScanResult block_bm blk_data_start 4542 r
      → BlockAllocated s (alloc_block s)
  unfolding alloc_block block_bm
  block_found none e (far, full) =
      rw
        (
          dev_read_block_lem s.g_sb.block_bitmap_blk s m (omega (arith, m.block_bitmap)),
          ◌>>=◌,
          e,
          lift,
        )
        full
  block_found (some none) e (full, room) = absurd (omega arith)
  block_found (some (some k)) e (lo, hi, inside, clear, full) =
      rw
        (
          dev_read_block_lem s.g_sb.block_bitmap_blk s m (omega (arith, m.block_bitmap)),
          ◌>>=◌,
          e,
          lift,
          claim_lem (sb_blocks dec32) (gd_blocks dec32) (sb_blocks-IsCounter dec32)
              (gd_blocks-IsCounter dec32) s.g_sb.block_bitmap_blk block_bm k s m.opened
              (omega (arith, m.block_bitmap)),
        )
        (
          lo,
          inside,
          full,
          set-IsFlipped (sb_blocks dec32) (gd_blocks dec32) (sb_blocks-IsCounter dec32)
              (gd_blocks-IsCounter dec32) s.g_sb.block_bitmap_blk k s m
              (omega (arith, m.block_bitmap)) (omega (arith, m.block_bitmap)) inside clear,
          refl,
          refl,
        )

  inode_found :
      (r : Option (Option ℕ))
      → scan 256 1 inode_bm ≡ r
      → ScanResult inode_bm 1 256 r
      → InodeAllocated s (alloc_inode s)
  unfolding alloc_inode inode_bm
  inode_found none e (far, full) = absurd (omega arith)
  inode_found (some none) e (full, room) =
      rw
        (
          dev_read_block_lem s.g_sb.inode_bitmap_blk s m (omega (arith, m.inode_bitmap)),
          ◌>>=◌,
          e,
          lift,
        )
        (refl, refl, full)
  inode_found (some (some k)) e (lo, hi, inside, clear, full) =
      rw
        (
          dev_read_block_lem s.g_sb.inode_bitmap_blk s m (omega (arith, m.inode_bitmap)),
          ◌>>=◌,
          e,
          lift,
          claim_lem (sb_inodes dec32) (gd_inodes dec32) (sb_inodes-IsCounter dec32)
              (gd_inodes-IsCounter dec32) s.g_sb.inode_bitmap_blk inode_bm k s m.opened
              (omega (arith, m.inode_bitmap)),
        )
        (
          lo,
          omega arith,
          full,
          set-IsFlipped (sb_inodes dec32) (gd_inodes dec32) (sb_inodes-IsCounter dec32)
              (gd_inodes-IsCounter dec32) s.g_sb.inode_bitmap_blk k s m
              (omega (arith, m.inode_bitmap)) (omega (arith, m.inode_bitmap)) inside clear,
          refl,
          refl,
        )

-- On an open image of full size `alloc_block` returns the first free data block, sets its bit,
-- changes no other bit and no block but the bitmap, the superblock and the group descriptor, and
-- takes one off the two counters of free blocks. It never returns an error: where all blocks below
-- 4096 are taken it leaves the bitmap's buffer, although the disk has 4611 blocks.
pub alloc_block_lem : (s : Fs) → IsMounted s → BlockAllocated s (alloc_block s)
unfolding block_bm
alloc_block_lem s m =
    block_found s m _ refl
      (scan-ScanResult 4542 blk_data_start (s.disk.content s.g_sb.block_bitmap_blk))

-- On an open image of full size `alloc_inode` returns the first free inode, sets its bit, changes
-- no other bit and no block but the bitmap, the superblock and the group descriptor, and takes one
-- off the two counters of free inodes; where all 256 are taken it returns FS_ENOSPC and changes
-- nothing.
pub alloc_inode_lem : (s : Fs) → IsMounted s → InodeAllocated s (alloc_inode s)
unfolding inode_bm
alloc_inode_lem s m =
    inode_found s m _ refl (scan-ScanResult 256 1 (s.disk.content s.g_sb.inode_bitmap_blk))
