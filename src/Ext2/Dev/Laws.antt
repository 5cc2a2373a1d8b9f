-- ===== src/Ext2/Dev/Laws.antt =====
-- project3/src/dev.c: reading and writing blocks of an open image of full size.
use xjtu_os_project.Prelude.{
  ℕ, ◌<◌, ◌≡◌, refl, ◌∙◌, List, ◌++◌, some, true, arith, length, length-append,
}
use xjtu_os_project.Ext2.Bytes.{IsBytes}
use xjtu_os_project.Ext2.Bytes.Laws.{append-IsBytes}
use xjtu_os_project.Ext2.State.{Superblock, GroupDesc, Fs, ok}
use xjtu_os_project.Ext2.Dev.{
  total_blocks, put, dev_read_block, dev_write_block, superblock_bytes, group_desc_bytes,
  write_super, write_gdesc,
}

-- The image is open and has all its blocks, of 512 bytes each; the superblock says where the
-- bitmaps and the inode table stand, as `fs_format` lays them out; and a whole block follows the
-- start of `g_sb` and of `g_gd` in memory.
pub record IsMounted (s : Fs) : Type 0 where
  pub opened : s.g_dev ≡ true
  pub full : s.disk.blocks ≡ total_blocks
  pub sized : (b : ℕ) → length (s.disk.content b) ≡ 512
  pub bytes : (b : ℕ) → IsBytes (s.disk.content b)
  pub block_bitmap : s.g_sb.block_bitmap_blk ≡ 3
  pub inode_bitmap : s.g_sb.inode_bitmap_blk ≡ 4
  pub inode_table : s.g_sb.inode_table_start ≡ 5
  pub sb_tail_sized : length s.sb_tail ≡ 448
  pub sb_tail_bytes : IsBytes s.sb_tail
  pub gd_tail_sized : length s.gd_tail ≡ 492
  pub gd_tail_bytes : IsBytes s.gd_tail

-- The state after a block is written.
abbrev pub wrote : ℕ → List ℕ → Fs → Fs
wrote blk buf s = record s { disk = put blk buf s.disk }

abbrev pub super_block : Fs → List ℕ
super_block s = superblock_bytes s.g_sb ++ s.sb_tail

abbrev pub gdesc_block : Fs → List ℕ
gdesc_block s = group_desc_bytes s.g_gd ++ s.gd_tail

pub dev_read_block_lem :
    (blk : ℕ) (s : Fs)
    → IsMounted s
    → blk < total_blocks
    → dev_read_block blk s ≡ some (ok (s.disk.content blk), s)
unfolding dev_read_block
dev_read_block_lem blk s m h = ground (arith, m.opened, m.full)

pub dev_write_block_lem :
    (buf : List ℕ) (blk : ℕ) (s : Fs)
    → s.g_dev ≡ true
    → blk < total_blocks
    → dev_write_block buf blk s ≡ some (ok tt, wrote blk buf s)
unfolding dev_write_block
dev_write_block_lem buf blk s m h = ground (arith, m)

pub write_super_lem :
    (s : Fs) → s.g_dev ≡ true → write_super s ≡ some (ok tt, wrote 1 (super_block s) s)
unfolding write_super
write_super_lem s m = dev_write_block_lem (super_block s) 1 s m (omega arith)

pub write_gdesc_lem :
    (s : Fs) → s.g_dev ≡ true → write_gdesc s ≡ some (ok tt, wrote 2 (gdesc_block s) s)
unfolding write_gdesc
write_gdesc_lem s m = dev_write_block_lem (gdesc_block s) 2 s m (omega arith)

superblock_bytes_lem :
    (sb : Superblock) → (length (superblock_bytes sb) ≡ 64) × IsBytes (superblock_bytes sb)
unfolding superblock_bytes
superblock_bytes_lem sb = (refl, omega arith)

group_desc_bytes_lem :
    (gd : GroupDesc) → (length (group_desc_bytes gd) ≡ 20) × IsBytes (group_desc_bytes gd)
unfolding group_desc_bytes
group_desc_bytes_lem gd = (refl, omega arith)

module _ (s : Fs) (m : IsMounted s) where
  open m use {full, sized, bytes}

  -- A block of 512 bytes, written where the disk has a block, keeps the image in shape.
  pub wrote-IsMounted :
      (blk : ℕ) (buf : List ℕ)
      → blk < total_blocks
      → length buf ≡ 512
      → IsBytes buf
      → IsMounted (wrote blk buf s)
  wrote-IsMounted blk buf h len bs = record {
    opened = m.opened;
    full = omega (arith, full);
    sized = λ b. ground (arith, sized b);
    bytes = λ b. ground (arith, bytes b, bs);
    block_bitmap = m.block_bitmap;
    inode_bitmap = m.inode_bitmap;
    inode_table = m.inode_table;
    sb_tail_sized = m.sb_tail_sized;
    sb_tail_bytes = m.sb_tail_bytes;
    gd_tail_sized = m.gd_tail_sized;
    gd_tail_bytes = m.gd_tail_bytes;
  }

  pub super-IsMounted : IsMounted (wrote 1 (super_block s) s)
  super-IsMounted =
      let (len, bs) = superblock_bytes_lem s.g_sb in
      wrote-IsMounted 1 (super_block s) (omega arith)
        (omega (arith, length-append (superblock_bytes s.g_sb) s.sb_tail, m.sb_tail_sized))
        (append-IsBytes (superblock_bytes s.g_sb) s.sb_tail bs m.sb_tail_bytes)

  pub gdesc-IsMounted : IsMounted (wrote 2 (gdesc_block s) s)
  gdesc-IsMounted =
      let (len, bs) = group_desc_bytes_lem s.g_gd in
      wrote-IsMounted 2 (gdesc_block s) (omega arith)
        (omega (arith, length-append (group_desc_bytes s.g_gd) s.gd_tail, m.gd_tail_sized))
        (append-IsBytes (group_desc_bytes s.g_gd) s.gd_tail bs m.gd_tail_bytes)

-- Whatever else changes, what `IsMounted` speaks of may be carried over.
pub IsMounted-same :
    {s t : Fs}
    → IsMounted s
    → t.g_dev ≡ s.g_dev
    → t.disk ≡ s.disk
    → t.g_sb.block_bitmap_blk ≡ s.g_sb.block_bitmap_blk
    → t.g_sb.inode_bitmap_blk ≡ s.g_sb.inode_bitmap_blk
    → t.g_sb.inode_table_start ≡ s.g_sb.inode_table_start
    → t.sb_tail ≡ s.sb_tail
    → t.gd_tail ≡ s.gd_tail
    → IsMounted t
IsMounted-same m dev disk bb ib it st gt = record {
  opened = dev ∙ m.opened;
  full = rw disk m.full;
  sized = λ b. rw disk (m.sized b);
  bytes = λ b. rw disk (m.bytes b);
  block_bitmap = bb ∙ m.block_bitmap;
  inode_bitmap = ib ∙ m.inode_bitmap;
  inode_table = it ∙ m.inode_table;
  sb_tail_sized = rw st m.sb_tail_sized;
  sb_tail_bytes = rw st m.sb_tail_bytes;
  gd_tail_sized = rw gt m.gd_tail_sized;
  gd_tail_bytes = rw gt m.gd_tail_bytes;
}
