-- ===== src/Ext2/Dev.antt =====
-- project3/src/dev.c: blocks of the image, and the whole blocks written from `g_sb` and `g_gd`.
-- `fseek`, `fwrite` and `fflush` on the open image succeed, and `fread` is short past its end.
pub mod Laws
pub mod Headers
use Prim.Native.Nat.{max}
use xjtu_os_project.Prelude.{
  ℕ, ◌+◌, true, false, not, ◌||◌, List, ◌++◌, some, if◌then◌else◌, ltb, leb, ◌==◌, drop,
}
use xjtu_os_project.Ext2.Bytes.{zero_block, u32_bytes, u64_bytes, u32_at, u64_at}
use xjtu_os_project.Ext2.State.{Superblock, GroupDesc, Fs, Disk, fs_err, ok, err, M}

abbrev pub total_blocks : ℕ
total_blocks = 4611

abbrev pub blk_super : ℕ
blk_super = 1

abbrev pub blk_gdesc : ℕ
blk_gdesc = 2

-- The two modes that the code opens the image with, "rb+" and "wb+".
pub data OpenMode : Type 0 where
  rb_plus wb_plus : OpenMode

abbrev pub fopen : OpenMode → Disk → Disk
fopen rb_plus d = d
fopen wb_plus d = record { present = true; blocks = 0; content = λ _. zero_block }

unfoldable pub dev_open : OpenMode → M (Unit {0})
dev_open mode s =
    let d = fopen mode s.disk in
    if s.g_dev
    then some (ok tt, s)
    else if d.present
    then some (ok tt, record s { disk = d; g_dev = true })
    else some (err fs_err, s)

unfoldable pub dev_close : M (Unit {0})
dev_close s = some (ok tt, record s { g_dev = false })

abbrev pub put : ℕ → List ℕ → Disk → Disk
put blk buf d = record d {
  blocks = max d.blocks (blk + 1);
  content = λ b. if b == blk then buf else d.content b;
}

unfoldable pub dev_read_block : ℕ → M (List ℕ)
dev_read_block blk s =
    if not s.g_dev || leb total_blocks blk
    then some (err fs_err, s)
    else if ltb blk s.disk.blocks
    then some (ok (s.disk.content blk), s)
    else some (err fs_err, s)

unfoldable pub dev_write_block : List ℕ → ℕ → M (Unit {0})
dev_write_block buf blk s =
    if not s.g_dev || leb total_blocks blk
    then some (err fs_err, s)
    else some (ok tt, record s { disk = put blk buf s.disk })

-- The 64 bytes of `g_sb`.
unfoldable pub superblock_bytes : Superblock → List ℕ
superblock_bytes sb =
    u32_bytes sb.magic
    ++ (u32_bytes sb.sb_block_size
        ++ (u32_bytes sb.blocks_count
            ++ (u32_bytes sb.inodes_count
                ++ (u32_bytes sb.free_blocks
                    ++ (u32_bytes sb.free_inodes
                        ++ (u32_bytes sb.first_data_block
                            ++ (u32_bytes sb.inode_table_start
                                ++ (u32_bytes sb.block_bitmap_blk
                                    ++ (u32_bytes sb.inode_bitmap_blk
                                        ++ (u32_bytes sb.root_ino
                                            ++ (u32_bytes sb.gap
                                                ++ (u64_bytes sb.mount_time
                                                    ++ u64_bytes sb.write_time))))))))))))

-- The 20 bytes of `g_gd`.
unfoldable pub group_desc_bytes : GroupDesc → List ℕ
group_desc_bytes gd =
    u32_bytes gd.block_bitmap
    ++ (u32_bytes gd.inode_bitmap
        ++ (u32_bytes gd.inode_table
            ++ (u32_bytes gd.free_blocks_count ++ u32_bytes gd.free_inodes_count)))

-- `dev_write_block(&g_sb, BLK_SUPER)`
unfoldable pub write_super : M (Unit {0})
unfolding dev_write_block
write_super s = dev_write_block (superblock_bytes s.g_sb ++ s.sb_tail) blk_super s

-- `dev_write_block(&g_gd, BLK_GDESC)`
unfoldable pub write_gdesc : M (Unit {0})
unfolding dev_write_block
write_gdesc s = dev_write_block (group_desc_bytes s.g_gd ++ s.gd_tail) blk_gdesc s

-- `dev_read_block(&g_sb, BLK_SUPER)`: the block is copied over `g_sb` and what lies behind it.
unfoldable pub superblock_of : List ℕ → Superblock
superblock_of bs = record {
  magic = u32_at bs 0;
  sb_block_size = u32_at bs 4;
  blocks_count = u32_at bs 8;
  inodes_count = u32_at bs 12;
  free_blocks = u32_at bs 16;
  free_inodes = u32_at bs 20;
  first_data_block = u32_at bs 24;
  inode_table_start = u32_at bs 28;
  block_bitmap_blk = u32_at bs 32;
  inode_bitmap_blk = u32_at bs 36;
  root_ino = u32_at bs 40;
  gap = u32_at bs 44;
  mount_time = u64_at bs 48;
  write_time = u64_at bs 56;
}

unfoldable pub group_desc_of : List ℕ → GroupDesc
group_desc_of bs = record {
  block_bitmap = u32_at bs 0;
  inode_bitmap = u32_at bs 4;
  inode_table = u32_at bs 8;
  free_blocks_count = u32_at bs 12;
  free_inodes_count = u32_at bs 16;
}

unfoldable pub load_super : List ℕ → Fs → Fs
unfolding superblock_of
load_super bs s = record s { g_sb = superblock_of bs; sb_tail = drop 64 bs }

-- `dev_read_block(&g_gd, BLK_GDESC)`
unfoldable pub load_gdesc : List ℕ → Fs → Fs
unfolding group_desc_of
load_gdesc bs s = record s { g_gd = group_desc_of bs; gd_tail = drop 20 bs }
