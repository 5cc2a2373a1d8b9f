-- ===== src/Ext2/Bitmap/Store.antt =====
-- project3/src/bitmap.c: reading and storing a bitmap and the counters on an open image.
use xjtu_os_project.Prelude.{
  ℕ, suc, ◌/◌, ◌<◌, ◌≡◌, ◌≢◌, refl, ◌∙◌, List, some, Bool, true, false, arith, length,
  if◌then◌else◌, ltb,
}
use xjtu_os_project.Ext2.Bytes.{IsBytes}
use xjtu_os_project.Ext2.State.{Fs, ok, ◌>>=◌, ◌>>◌, ignore, must}
use xjtu_os_project.Ext2.Dev.{total_blocks}
use xjtu_os_project.Ext2.Dev.Laws.{
  IsMounted, wrote, super_block, gdesc_block, dev_read_block_lem, dev_write_block_lem,
  write_super_lem, write_gdesc_lem, wrote-IsMounted, super-IsMounted, gdesc-IsMounted,
  IsMounted-same,
}
use xjtu_os_project.Ext2.Bitmap.{
  bit_at, bit_set, bit_clear, bitop_test, bitop_set, bmap_test, bmap_set, bitmap_blk, sb_blocks,
  gd_blocks, sb_inodes, gd_inodes, claim, give_back,
}

-- An update of the counters of the superblock or of the group descriptor.
pub record IsCounter (f : Fs → Fs) : Type 0 where
  pub keeps : (s : Fs) → IsMounted s → IsMounted (f s)
  pub dev : (s : Fs) → (f s).g_dev ≡ s.g_dev
  pub disk : (s : Fs) → (f s).disk ≡ s.disk

module _ (f : ℕ → ℕ) where
  pub sb_blocks-IsCounter : IsCounter (sb_blocks f)
  sb_blocks-IsCounter = record {
    keeps = λ s m. IsMounted-same m refl refl refl refl refl refl refl;
    dev = λ s. refl;
    disk = λ s. refl;
  }

  pub sb_inodes-IsCounter : IsCounter (sb_inodes f)
  sb_inodes-IsCounter = record {
    keeps = λ s m. IsMounted-same m refl refl refl refl refl refl refl;
    dev = λ s. refl;
    disk = λ s. refl;
  }

  pub gd_blocks-IsCounter : IsCounter (gd_blocks f)
  gd_blocks-IsCounter = record {
    keeps = λ s m. IsMounted-same m refl refl refl refl refl refl refl;
    dev = λ s. refl;
    disk = λ s. refl;
  }

  pub gd_inodes-IsCounter : IsCounter (gd_inodes f)
  gd_inodes-IsCounter = record {
    keeps = λ s m. IsMounted-same m refl refl refl refl refl refl refl;
    dev = λ s. refl;
    disk = λ s. refl;
  }

-- The state after `claim`, and after `give_back`: the bitmap is stored, then the counters.
abbrev pub stored : ℕ → List ℕ → (Fs → Fs) → (Fs → Fs) → Fs → Fs
stored blk buf on_sb on_gd s =
    let s1 = on_sb (wrote blk buf s) in
    let s2 = on_gd (wrote 1 (super_block s1) s1) in wrote 2 (gdesc_block s2) s2

-- Block `blk`, which is neither the superblock nor the group descriptor, holds `buf`; those two are
-- written too, and no other block has changed.
pub record IsStored (blk : ℕ) (buf : List ℕ) (s t : Fs) : Type 0 where
  pub there : t.disk.content blk ≡ buf
  pub others : (b : ℕ) → b ≢ blk → b ≢ 1 → b ≢ 2 → t.disk.content b ≡ s.disk.content b
  pub mounted : IsMounted t

pub bmap_test_lem :
    (is_block : Bool) (i : ℕ) (s : Fs)
    → IsMounted s
    → bitmap_blk s.g_sb is_block < total_blocks
    → i < 4096
    → bmap_test i is_block s ≡ some (ok (bit_at (s.disk.content (bitmap_blk s.g_sb is_block)) i), s)
unfolding bmap_test bitop_test
bmap_test_lem is_block i s m h inside =
    rw (dev_read_block_lem (bitmap_blk s.g_sb is_block) s m h, ◌>>=◌, must, in_range)
  where
    in_range : ltb (i / 8) 512 ≡ true
    in_range = ground arith

pub bmap_set_lem :
    (is_block : Bool) (i : ℕ) (val : Bool) (s : Fs)
    → IsMounted s
    → bitmap_blk s.g_sb is_block < total_blocks
    → i < 4096
    → let blk = bitmap_blk s.g_sb is_block in
      let bm = s.disk.content blk in
      bmap_set i is_block val s
      ≡ some (ok tt, wrote blk (if val then bit_set bm i else bit_clear bm i) s)
unfolding bmap_set bitop_set
bmap_set_lem is_block i val s m h inside =
    rw (dev_read_block_lem (bitmap_blk s.g_sb is_block) s m h, ◌>>=◌, must, in_range)
      (dev_write_block_lem _ (bitmap_blk s.g_sb is_block) s m.opened h)
  where
    in_range : ltb (i / 8) 512 ≡ true
    in_range = ground arith

module _ (on_sb on_gd : Fs → Fs) (sb : IsCounter on_sb) (gd : IsCounter on_gd) where
  pub claim_lem :
      (blk : ℕ) (bm : List ℕ) (i : ℕ) (s : Fs)
      → s.g_dev ≡ true
      → blk < total_blocks
      → claim blk on_sb on_gd bm (some i) s ≡ some (ok i, stored blk (bit_set bm i) on_sb on_gd s)
  unfolding claim
  claim_lem blk bm i s m h = rw (
    dev_write_block_lem (bit_set bm i) blk s m h,
    ◌>>=◌,
    ◌>>◌,
    write_super_lem s1 (sb.dev (wrote blk (bit_set bm i) s) ∙ m),
    ignore,
    write_gdesc_lem s2
        (gd.dev (wrote 1 (super_block s1) s1) ∙ (sb.dev (wrote blk (bit_set bm i) s) ∙ m)),
  )
    where
      s1 : Fs
      s1 = on_sb (wrote blk (bit_set bm i) s)

      s2 : Fs
      s2 = on_gd (wrote 1 (super_block s1) s1)

  -- The end of `free_block` and of `free_inode`.
  pub give_back_lem :
      (is_block : Bool) (i u : ℕ) (s : Fs)
      → IsMounted s
      → bitmap_blk s.g_sb is_block < total_blocks
      → i < 4096
      → let blk = bitmap_blk s.g_sb is_block in
        give_back is_block on_sb on_gd i (suc u) s
        ≡ some (ok tt, stored blk (bit_clear (s.disk.content blk) i) on_sb on_gd s)
  unfolding give_back
  give_back_lem is_block i u s m h inside = rw (
    bmap_set_lem is_block i false s m h inside,
    ◌>>=◌,
    ◌>>◌,
    ignore,
    write_super_lem s1 (sb.dev (wrote blk (bit_clear (s.disk.content blk) i) s) ∙ m.opened),
    write_gdesc_lem s2 (
        gd.dev (wrote 1 (super_block s1) s1)
        ∙ (sb.dev (wrote blk (bit_clear (s.disk.content blk) i) s) ∙ m.opened)),
  )
    where
      blk : ℕ
      blk = bitmap_blk s.g_sb is_block

      s1 : Fs
      s1 = on_sb (wrote blk (bit_clear (s.disk.content blk) i) s)

      s2 : Fs
      s2 = on_gd (wrote 1 (super_block s1) s1)

  pub stored-IsStored :
      (blk : ℕ) (buf : List ℕ) (s : Fs)
      → IsMounted s
      → 2 < blk
      → blk < total_blocks
      → length buf ≡ 512
      → IsBytes buf
      → IsStored blk buf s (stored blk buf on_sb on_gd s)
  stored-IsStored blk buf s m lo hi len bs = record {
    there = ground (arith, sb.disk s0, gd.disk s1);
    others = λ b p q r. ground (arith, sb.disk s0, gd.disk s1);
    mounted = gdesc-IsMounted (on_gd s1) (
        gd.keeps s1
          (super-IsMounted (on_sb s0) (sb.keeps s0 (wrote-IsMounted s m blk buf hi len bs))));
  }
    where
      s0 : Fs
      s0 = wrote blk buf s

      s1 : Fs
      s1 = wrote 1 (super_block (on_sb s0)) (on_sb s0)
