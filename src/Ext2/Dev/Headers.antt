-- ===== src/Ext2/Dev/Headers.antt =====
-- project3/src/dev.c and src/fs.c: the superblock and the group descriptor come back from the image.
use xjtu_os_project.Prelude.{ℕ, ◌^◌, ◌<◌, ◌≡◌, List, ◌++◌, arith}
use xjtu_os_project.Ext2.Bytes.{u32_at, u64_at}
use xjtu_os_project.Ext2.State.{Superblock, GroupDesc}
use xjtu_os_project.Ext2.Dev.{superblock_bytes, group_desc_bytes, superblock_of, group_desc_of}

-- The fields are in the range of their C types.
pub record IsSuperblock (sb : Superblock) : Type 0 where
  pub magic : sb.magic < 2 ^ 32
  pub sb_block_size : sb.sb_block_size < 2 ^ 32
  pub blocks_count : sb.blocks_count < 2 ^ 32
  pub inodes_count : sb.inodes_count < 2 ^ 32
  pub free_blocks : sb.free_blocks < 2 ^ 32
  pub free_inodes : sb.free_inodes < 2 ^ 32
  pub first_data_block : sb.first_data_block < 2 ^ 32
  pub inode_table_start : sb.inode_table_start < 2 ^ 32
  pub block_bitmap_blk : sb.block_bitmap_blk < 2 ^ 32
  pub inode_bitmap_blk : sb.inode_bitmap_blk < 2 ^ 32
  pub root_ino : sb.root_ino < 2 ^ 32
  pub gap : sb.gap < 2 ^ 32
  pub mount_time : sb.mount_time < 2 ^ 64
  pub write_time : sb.write_time < 2 ^ 64

pub record IsGroupDesc (gd : GroupDesc) : Type 0 where
  pub block_bitmap : gd.block_bitmap < 2 ^ 32
  pub inode_bitmap : gd.inode_bitmap < 2 ^ 32
  pub inode_table : gd.inode_table < 2 ^ 32
  pub free_blocks_count : gd.free_blocks_count < 2 ^ 32
  pub free_inodes_count : gd.free_inodes_count < 2 ^ 32

pub superblock_back :
    (sb : Superblock) (tail : List ℕ)
    → IsSuperblock sb
    → superblock_of (superblock_bytes sb ++ tail) ≡ sb
unfolding superblock_of superblock_bytes
superblock_back sb tail v = λ j. record {
  magic = a j;
  sb_block_size = b j;
  blocks_count = c j;
  inodes_count = d j;
  free_blocks = e j;
  free_inodes = f j;
  first_data_block = g j;
  inode_table_start = h j;
  block_bitmap_blk = i j;
  inode_bitmap_blk = k j;
  root_ino = l j;
  gap = m j;
  mount_time = n j;
  write_time = o j;
}
  where
    bytes : List ℕ
    bytes = superblock_bytes sb ++ tail

    a : u32_at bytes 0 ≡ sb.magic
    a = omega (arith, v.magic)

    b : u32_at bytes 4 ≡ sb.sb_block_size
    b = omega (arith, v.sb_block_size)

    c : u32_at bytes 8 ≡ sb.blocks_count
    c = omega (arith, v.blocks_count)

    d : u32_at bytes 12 ≡ sb.inodes_count
    d = omega (arith, v.inodes_count)

    e : u32_at bytes 16 ≡ sb.free_blocks
    e = omega (arith, v.free_blocks)

    f : u32_at bytes 20 ≡ sb.free_inodes
    f = omega (arith, v.free_inodes)

    g : u32_at bytes 24 ≡ sb.first_data_block
    g = omega (arith, v.first_data_block)

    h : u32_at bytes 28 ≡ sb.inode_table_start
    h = omega (arith, v.inode_table_start)

    i : u32_at bytes 32 ≡ sb.block_bitmap_blk
    i = omega (arith, v.block_bitmap_blk)

    k : u32_at bytes 36 ≡ sb.inode_bitmap_blk
    k = omega (arith, v.inode_bitmap_blk)

    l : u32_at bytes 40 ≡ sb.root_ino
    l = omega (arith, v.root_ino)

    m : u32_at bytes 44 ≡ sb.gap
    m = omega (arith, v.gap)

    n : u64_at bytes 48 ≡ sb.mount_time
    n = omega (arith, v.mount_time)

    o : u64_at bytes 56 ≡ sb.write_time
    o = omega (arith, v.write_time)

pub group_desc_back :
    (gd : GroupDesc) (tail : List ℕ)
    → IsGroupDesc gd
    → group_desc_of (group_desc_bytes gd ++ tail) ≡ gd
unfolding group_desc_of group_desc_bytes
group_desc_back gd tail v = λ j. record {
  block_bitmap = a j;
  inode_bitmap = b j;
  inode_table = c j;
  free_blocks_count = d j;
  free_inodes_count = e j;
}
  where
    bytes : List ℕ
    bytes = group_desc_bytes gd ++ tail

    a : u32_at bytes 0 ≡ gd.block_bitmap
    a = omega (arith, v.block_bitmap)

    b : u32_at bytes 4 ≡ gd.inode_bitmap
    b = omega (arith, v.inode_bitmap)

    c : u32_at bytes 8 ≡ gd.inode_table
    c = omega (arith, v.inode_table)

    d : u32_at bytes 12 ≡ gd.free_blocks_count
    d = omega (arith, v.free_blocks_count)

    e : u32_at bytes 16 ≡ gd.free_inodes_count
    e = omega (arith, v.free_inodes_count)
