-- ===== src/Ext2/Format.antt =====
-- project3/src/fs.c: `fs_format` and `fs_mount` of disk.img. Reading and writing `g_sb` and `g_gd` moves
-- whole blocks: the bytes behind the two, `sb_tail` and `gd_tail`, are taken to hold none of the other
-- variables.
pub mod Layout
pub mod Marks
pub mod Empty
pub mod Root
mod Tests
use xjtu_os_project.Prelude.{
  ℕ, zero, suc, ◌+◌, ◌-◌, ◌%◌, ◌^◌, true, false, not, ◌||◌, if◌then◌else◌, ◌==◌, replicate,
}
use xjtu_os_project.Ext2.Bytes.{block_size, zero_block}
use xjtu_os_project.Ext2.State.{
  Superblock, GroupDesc, Fs, Result, fs_err, ok, err, M, pure, fail, ◌>>=◌, ◌>>◌, get, modify,
  ignore, attempt, or_else, ts_now,
}
use xjtu_os_project.Ext2.Dev.{
  rb_plus, wb_plus, total_blocks, blk_super, blk_gdesc, dev_open, dev_close, dev_read_block,
  dev_write_block, write_super, write_gdesc, load_super, load_gdesc,
}
use xjtu_os_project.Ext2.Bitmap.{blk_data_start, max_inodes, bmap_set}
use xjtu_os_project.Ext2.Inode.{zero_inode, write_inode}
use xjtu_os_project.Ext2.Dir.{dir_add}
use xjtu_os_project.Ext2.Open.{max_open, no_file}
use xjtu_os_project.Ext2.Text.{codes}
use xjtu_os_project.Ext2.Security.{users_bootstrap, session_load}

abbrev pub fs_magic : ℕ
fs_magic = 0xef53

abbrev pub mode_dir : ℕ
mode_dir = 0o040755

abbrev pub ft_dir : ℕ
ft_dir = 2

abbrev pub new_superblock : ℕ → ℕ → Superblock
new_superblock mount_time write_time = record {
  magic = fs_magic;
  sb_block_size = block_size;
  blocks_count = total_blocks;
  inodes_count = max_inodes;
  free_blocks = total_blocks;
  free_inodes = max_inodes;
  first_data_block = blk_data_start;
  inode_table_start = 5;
  block_bitmap_blk = 3;
  inode_bitmap_blk = 4;
  root_ino = 1;
  gap = 0;
  mount_time = mount_time;
  write_time = write_time;
}

abbrev pub new_group_desc : GroupDesc
new_group_desc = record {
  block_bitmap = 3;
  inode_bitmap = 4;
  inode_table = 5;
  free_blocks_count = total_blocks;
  free_inodes_count = max_inodes;
}

-- The loop that clears `n` blocks from `i` on.
unfoldable pub clear_blocks : ℕ → ℕ → M (Unit {0})
clear_blocks zero i = pure tt
clear_blocks (suc n) i = do ignore (dev_write_block zero_block i); clear_blocks n (i + 1)

-- The loop that marks `n` blocks from `i` on.
unfoldable pub reserve_blocks : ℕ → ℕ → M (Unit {0})
unfolding bmap_set
reserve_blocks zero i = pure tt
reserve_blocks (suc n) i = do ignore (bmap_set i true true); reserve_blocks n (i + 1)

-- `x -= k` on a `uint32_t`
abbrev pub sub32 : ℕ → ℕ → ℕ
sub32 x k = (x + 2 ^ 32 - k) % 2 ^ 32

abbrev pub less_blocks : ℕ → Fs → Fs
less_blocks k s = record s {
  g_sb = record (s.g_sb) { free_blocks = sub32 s.g_sb.free_blocks k };
  g_gd = record (s.g_gd) { free_blocks_count = sub32 s.g_gd.free_blocks_count k };
}

abbrev pub less_inodes : ℕ → Fs → Fs
less_inodes k s = record s {
  g_sb = record (s.g_sb) { free_inodes = sub32 s.g_sb.free_inodes k };
  g_gd = record (s.g_gd) { free_inodes_count = sub32 s.g_gd.free_inodes_count k };
}

unfoldable pub write_both : M (Unit {0})
unfolding write_super write_gdesc
write_both = do ignore write_super; ignore write_gdesc

-- The superblock and the group descriptor of an empty disk.
unfoldable pub init_super : M (Unit {0})
init_super = do
  mount_time ← ts_now
  write_time ← ts_now
  modify (λ s. record s { g_sb = new_superblock mount_time write_time; g_gd = new_group_desc })
  write_both

-- The blocks in front of the data blocks, and the inode of the root, are marked as taken.
unfoldable pub reserve : M (Unit {0})
reserve = do
  reserve_blocks blk_data_start 0
  modify (less_blocks blk_data_start)
  write_both
  ignore (bmap_set 1 false true)
  modify (less_inodes 1)
  write_both

-- What `fs_format` does with the empty image in front of the directories.
unfoldable pub lay_out : M (Unit {0})
lay_out = do clear_blocks total_blocks 0; init_super; reserve

unfoldable pub make_root : M (Unit {0})
make_root = do
  ctime ← ts_now
  mtime ← ts_now
  atime ← ts_now
  ignore (
      write_inode 1 (record zero_inode {
        mode = mode_dir;
        links = 2;
        ctime = ctime;
        mtime = mtime;
        atime = atime;
      }))
  ignore (dir_add 1 (codes ".") ft_dir 1)
  ignore (dir_add 1 (codes "..") ft_dir 1)

unfoldable pub fs_format : M (Unit {0})
fs_format = do
  ignore dev_close
  or_else (dev_open wb_plus) fs_err
  lay_out
  make_root
  ignore users_bootstrap
  ignore dev_close

-- The end of `fs_mount`: root is logged in where there is no session.
unfoldable pub or_root_user : Result (Unit {0}) → M (Unit {0})
or_root_user (ok _) = pure tt
or_root_user (err _) = modify (λ s. record s { g_uid = 0; g_user = codes "root" })

unfoldable pub mount_rest : M (Unit {0})
unfolding or_root_user load_gdesc
mount_rest = do
  buf ← or_else (dev_read_block blk_gdesc) fs_err
  modify (load_gdesc buf)
  modify (λ s. record s { g_cwd = s.g_sb.root_ino; g_ofile = replicate max_open no_file })
  ignore users_bootstrap
  r ← attempt session_load
  or_root_user r

unfoldable pub fs_mount : M (Unit {0})
unfolding mount_rest load_super
fs_mount = do
  or_else (dev_open rb_plus) fs_err
  buf ← or_else (dev_read_block blk_super) fs_err
  modify (load_super buf)
  s ← get
  if not (s.g_sb.magic == fs_magic) || not (s.g_sb.sb_block_size == block_size)
      then fail fs_err
      else mount_rest
