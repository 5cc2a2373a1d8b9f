-- ===== src/Ext2/Map/Fresh.antt =====
-- project3/src/file.c: the new data blocks that the block map takes, which are zeroed.
use xjtu_os_project.Prelude.{
  ℕ, ◌<◌, ◌≤◌, ◌≡◌, ◌≢◌, refl, List, Option, none, some, arith, if◌then◌else◌, ◌==◌,
}
use xjtu_os_project.Ext2.Bytes.{zero_block}
use xjtu_os_project.Ext2.Bytes.Laws.{replicate-IsBytes}
use xjtu_os_project.Ext2.State.{Fs, Result, ok, err, ◌>>=◌, ◌>>◌, ignore}
use xjtu_os_project.Ext2.Dev.Laws.{IsMounted, wrote, dev_write_block_lem, wrote-IsMounted}
use xjtu_os_project.Ext2.Bitmap.{bit_at, alloc_block, blk_data_start}
use xjtu_os_project.Ext2.Bitmap.Scan.{IsFull}
use xjtu_os_project.Ext2.Bitmap.Alloc.{BlockAllocated, alloc_block_lem}
use xjtu_os_project.Ext2.Map.{new_block}

abbrev pub bitmap_of : Fs → List ℕ
bitmap_of s = s.disk.content s.g_sb.block_bitmap_blk

-- Block `b` was free in `s`; in `t` it is taken, zeroed, and all that has changed on the disk but
-- the bitmap and the counters.
pub record IsFresh (s : Fs) (b : ℕ) (t : Fs) : Type 0 where
  pub lo : blk_data_start ≤ b
  pub hi : b < 4096
  pub was_free : bit_at (bitmap_of s) b ≡ 0
  pub bits : (j : ℕ) → bit_at (bitmap_of t) j ≡ (if b == j then 1 else bit_at (bitmap_of s) j)
  pub zeroed : t.disk.content b ≡ zero_block
  pub others : (c : ℕ) → blk_data_start ≤ c → c ≢ b → t.disk.content c ≡ s.disk.content c
  pub mounted : IsMounted t

abbrev pub NewBlock : Fs → Option (Result ℕ × Fs) → Type 0
NewBlock s none = IsFull (bitmap_of s) blk_data_start 4096
NewBlock s (some (err e, t)) = ⊥
NewBlock s (some (ok b, t)) = IsFresh s b t

new_block_from :
    (s : Fs) (r : Option (Result ℕ × Fs))
    → IsMounted s
    → alloc_block s ≡ r
    → BlockAllocated s r
    → NewBlock s (new_block s)
unfolding new_block
new_block_from s none m e a = rw (e, ◌>>=◌) a
new_block_from s (some (err _, t)) m e a = absurd a
new_block_from s (some (ok k, u)) m e (lo, hi, full, taken, sb, gd) =
    rw
      (
        e,
        ◌>>=◌,
        ◌>>◌,
        ignore,
        dev_write_block_lem zero_block k u taken.mounted.opened (omega arith),
      )
      (record {
        lo = lo;
        hi = hi;
        was_free = taken.before;
        bits = λ j. bits_there j;
        zeroed = ground arith;
        others = λ c at ne. ground (arith, taken.others c, m.block_bitmap);
        mounted =
            wrote-IsMounted u taken.mounted k zero_block (omega arith) refl (replicate-IsBytes 512);
      })
  where
    bits_there :
        (j : ℕ)
        → bit_at (bitmap_of (wrote k zero_block u)) j
          ≡ (if k == j then 1 else bit_at (bitmap_of s) j)
    bits_there j = ground (arith, taken.after j, taken.mounted.block_bitmap, m.block_bitmap)

pub new_block_lem : (s : Fs) → IsMounted s → NewBlock s (new_block s)
new_block_lem s m = new_block_from s _ m refl (alloc_block_lem s m)
