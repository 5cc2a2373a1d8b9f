-- ===== src/Ext2/Tests.antt =====
-- project3: a small image, runs on it, and the theorems at it.
use xjtu_os_project.Prelude.{
  ◌≡◌, refl, [], ◌∷◌, Option, none, some, true, arith, replicate, set, ◌≢◌, ℤ, pos, inl,
}
use xjtu_os_project.Ext2.Bytes.{zero_block}
use xjtu_os_project.Ext2.Bytes.Laws.{replicate-IsBytes}
use xjtu_os_project.Ext2.State.{Fs, Result, ok}
use xjtu_os_project.Ext2.Dev.{dev_read_block, write_super, write_gdesc}
use xjtu_os_project.Ext2.Dev.Laws.{IsMounted, IsMounted-same}
use xjtu_os_project.Ext2.Bitmap.{
  bit_at, bit_set, bitop_test, scan, dec32, sb_blocks, gd_blocks, alloc_block, alloc_inode,
  free_block,
}
use xjtu_os_project.Ext2.Bitmap.Store.{stored}
use xjtu_os_project.Ext2.Bitmap.Alloc.{
  BlockAllocated, InodeAllocated, alloc_block_lem, alloc_inode_lem,
}
use xjtu_os_project.Ext2.Bitmap.Free.{Restores, free_block-alloc_block}
use xjtu_os_project.Ext2.Bytes.{slice, words_at}
use xjtu_os_project.Ext2.Inode.{inode_pos, zero_inode, inode_of, read_inode, write_inode}
use xjtu_os_project.Ext2.Map.{map_bn_for_write}
use xjtu_os_project.Ext2.Map.Blocks.{MapResult}
use xjtu_os_project.Ext2.Map.Agreement.{map_bn_for_write-MapResult}
use xjtu_os_project.Ext2.Open.{no_file, slot_of, fs_close}
use xjtu_os_project.Ext2.Io.{fs_read, write_loop}
use xjtu_os_project.Ext2.Io.Fuel.{Writes, write_loop-Writes}
use xjtu_os_project.Ext2.Io.Reading.{ReadResult, fs_read-ReadResult}
use xjtu_os_project.Ext2.Io.Descriptors.{IsRefused, fs_close_ends}
use xjtu_os_project.Ext2.Inode.Bytes.{IsInode}
use xjtu_os_project.Ext2.Inode.Table.{read_inode-write_inode, read_inode-write_inode_ne}

-- An image of zeros, with the superblock that `fs_format` makes.
abbrev pub blank : Fs
blank = record {
  disk = record { present = true; blocks = 4611; content = λ b. zero_block };
  g_dev = true;
  g_sb = record {
    magic = 0xef53;
    sb_block_size = 512;
    blocks_count = 4611;
    inodes_count = 256;
    free_blocks = 4542;
    free_inodes = 255;
    first_data_block = 69;
    inode_table_start = 5;
    block_bitmap_blk = 3;
    inode_bitmap_blk = 4;
    root_ino = 1;
    gap = 0;
    mount_time = 0;
    write_time = 0;
  };
  sb_tail = replicate 448 0;
  g_gd = record {
    block_bitmap = 3;
    inode_bitmap = 4;
    inode_table = 5;
    free_blocks_count = 4542;
    free_inodes_count = 255;
  };
  gd_tail = replicate 492 0;
  g_ofile = [];
  g_cwd = 1;
  g_uid = 0;
  g_user = [];
  clock = λ n. n;
  calls = 0;
}

pub blank-IsMounted : IsMounted blank
blank-IsMounted = record {
  opened = refl;
  full = refl;
  sized = λ b. refl;
  bytes = λ b. replicate-IsBytes 512;
  block_bitmap = refl;
  inode_bitmap = refl;
  inode_table = refl;
  sb_tail_sized = refl;
  sb_tail_bytes = replicate-IsBytes 448;
  gd_tail_sized = refl;
  gd_tail_bytes = replicate-IsBytes 492;
}

pub zero_inode-IsInode : IsInode zero_inode
zero_inode-IsInode = record {
  mode = omega arith;
  uid = omega arith;
  size = omega arith;
  atime = omega arith;
  mtime = omega arith;
  ctime = omega arith;
  gid = omega arith;
  links = omega arith;
  blocks = omega arith;
  direct = omega arith;
  direct_length = refl;
  indirect1 = omega arith;
  reserve = replicate-IsBytes 56;
  reserve_length = refl;
}

abbrev result {ℓ} : {A : Type ℓ} → Option (Result A × Fs) → Option (Result A)
result none = none
result (some (r, s)) = some r

first_block : result (alloc_block blank) ≡ some (ok 69)
unfolding alloc_block scan bitop_test bit_at dev_read_block write_super write_gdesc
first_block = refl

alloc_block_lem_example : BlockAllocated blank (alloc_block blank)
alloc_block_lem_example = alloc_block_lem blank blank-IsMounted

alloc_inode_lem_example : InodeAllocated blank (alloc_inode blank)
alloc_inode_lem_example = alloc_inode_lem blank blank-IsMounted

read_inode-write_inode_example :
    (t : Fs) × (write_inode 7 zero_inode blank ≡ some (ok tt, t))
    × (read_inode 7 t ≡ some (ok zero_inode, t))
    × IsMounted t
read_inode-write_inode_example =
    read_inode-write_inode 7 (omega arith) (omega arith) zero_inode zero_inode-IsInode blank
      blank-IsMounted

read_inode-write_inode_ne_example :
    (t : Fs) × (write_inode 7 zero_inode blank ≡ some (ok tt, t))
    × (read_inode 8 t ≡ some (ok zero_inode, t))
    × (t.disk.content 70 ≡ zero_block)
unfolding read_inode inode_pos dev_read_block inode_of slice words_at
read_inode-write_inode_ne_example =
    read_inode-write_inode_ne 7 (omega arith) (omega arith) zero_inode zero_inode-IsInode blank
      blank-IsMounted 8 zero_inode 70 (omega arith) (omega arith) (omega arith) refl (omega arith)

-- The state after the first block is allocated.
abbrev one_taken : Fs
one_taken = stored 3 (bit_set zero_block 69) (sb_blocks dec32) (gd_blocks dec32) blank

free_block-alloc_block_example : Restores blank (free_block 69 one_taken)
unfolding alloc_block scan bitop_test bit_at dev_read_block write_super write_gdesc
free_block-alloc_block_example =
    free_block-alloc_block blank one_taken 69 blank-IsMounted (omega arith) (omega arith) refl

-- Descriptor 3 is in use, descriptor 4 is not.
abbrev one_open : Fs
one_open = record blank {
  g_ofile =
      set (replicate 64 no_file) 3 (record { used = true; ino = 7; offset = 0; writable = true });
}

fs_close_ends_example :
    (t : Fs) × (fs_close (pos 3) one_open ≡ some (ok tt, t))
    × IsRefused (pos 3) t
    × ((other : ℤ) → other ≢ pos 3 → slot_of other t ≡ slot_of other one_open)
unfolding slot_of
fs_close_ends_example = fs_close_ends (pos 3) 3 one_open refl

map_bn_for_write-MapResult_example :
    MapResult zero_inode 10 blank (map_bn_for_write zero_inode 10 blank)
map_bn_for_write-MapResult_example =
    map_bn_for_write-MapResult zero_inode 10 blank blank-IsMounted refl (inl refl)

fs_read-ReadResult_example : ReadResult (pos 3) 10 one_open (fs_read (pos 3) 10 one_open)
fs_read-ReadResult_example =
    fs_read-ReadResult (pos 3) 10 one_open
      (IsMounted-same blank-IsMounted refl refl refl refl refl refl refl)

write_loop-Writes_example :
    Writes zero_inode 510
      (7 ∷ 8 ∷ 9 ∷ [])
      blank
      (write_loop 3 zero_inode 510 (7 ∷ 8 ∷ 9 ∷ []) blank)
write_loop-Writes_example = write_loop-Writes 3 zero_inode 510 (7 ∷ 8 ∷ 9 ∷ []) blank (omega arith)
