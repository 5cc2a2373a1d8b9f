-- ===== src/Ext2/Format/Tests.antt =====
-- project3/src/fs.c: the theorems at a small state.
use xjtu_os_project.Prelude.{[], ◌∷◌, ℕ, ◌≡◌, refl, arith, List, some, false}
use xjtu_os_project.Ext2.State.{Fs, Inode, ok, fs_err, ◌>>◌, or_else}
use xjtu_os_project.Ext2.Dev.{
  wb_plus, blk_super, blk_gdesc, dev_open, dev_read_block, superblock_of, group_desc_of,
}
use xjtu_os_project.Ext2.Dev.Headers.{IsSuperblock, IsGroupDesc}
use xjtu_os_project.Ext2.Format.{write_both, lay_out, make_root}
use xjtu_os_project.Ext2.Format.Layout.{HasTails, mount_reads}
use xjtu_os_project.Ext2.Dir.Slots.{IsDirectory}
use xjtu_os_project.Ext2.Format.Root.{dot, dot_dot, make_root-IsDirectory}
use xjtu_os_project.Ext2.Format.Empty.{IsEmpty, lay_out-IsEmpty}
use xjtu_os_project.Ext2.Tests.{blank, blank-IsMounted}

blank-IsSuperblock : IsSuperblock blank.g_sb
blank-IsSuperblock = record {
  magic = omega arith;
  sb_block_size = omega arith;
  blocks_count = omega arith;
  inodes_count = omega arith;
  free_blocks = omega arith;
  free_inodes = omega arith;
  first_data_block = omega arith;
  inode_table_start = omega arith;
  block_bitmap_blk = omega arith;
  inode_bitmap_blk = omega arith;
  root_ino = omega arith;
  gap = omega arith;
  mount_time = omega arith;
  write_time = omega arith;
}

blank-IsGroupDesc : IsGroupDesc blank.g_gd
blank-IsGroupDesc = record {
  block_bitmap = omega arith;
  inode_bitmap = omega arith;
  inode_table = omega arith;
  free_blocks_count = omega arith;
  free_inodes_count = omega arith;
}

mount_reads_example :
    (t : Fs) × (sb gd : List ℕ) × (write_both blank ≡ some (ok tt, t))
    × (dev_read_block blk_super t ≡ some (ok sb, t))
    × (dev_read_block blk_gdesc t ≡ some (ok gd, t))
    × (superblock_of sb ≡ blank.g_sb)
    × (group_desc_of gd ≡ blank.g_gd)
mount_reads_example = mount_reads blank blank-IsMounted blank-IsSuperblock blank-IsGroupDesc

-- The state before the image is opened.
abbrev unopened : Fs
unopened = record blank { g_dev = false }

unopened-HasTails : HasTails unopened
unopened-HasTails = record {
  sb_tail_sized = blank-IsMounted.sb_tail_sized;
  sb_tail_bytes = blank-IsMounted.sb_tail_bytes;
  gd_tail_sized = blank-IsMounted.gd_tail_sized;
  gd_tail_bytes = blank-IsMounted.gd_tail_bytes;
}

lay_out-IsEmpty_example :
    (t : Fs) × ((do or_else (dev_open wb_plus) fs_err; lay_out) unopened ≡ some (ok tt, t))
    × IsEmpty t
lay_out-IsEmpty_example = lay_out-IsEmpty unopened refl unopened-HasTails

make_root-IsDirectory_example :
    (u : Fs) × (din : Inode) × ((do or_else (dev_open wb_plus) fs_err; lay_out; make_root) unopened
      ≡ some (ok tt, u))
    × IsDirectory 1 din (dot ∷ dot_dot ∷ []) u
make_root-IsDirectory_example = make_root-IsDirectory unopened refl unopened-HasTails
