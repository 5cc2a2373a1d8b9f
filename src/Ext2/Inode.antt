-- ===== src/Ext2/Inode.antt =====
-- project3/src/inode.c: the inode table. An inode has 128 bytes and no gap between its fields.
pub mod Bytes
pub mod Table
use xjtu_os_project.Prelude.{
  ℕ, zero, suc, ◌+◌, ◌-◌, ◌*◌, ◌/◌, ◌%◌, ◌^◌, ◌||◌, List, [], ◌∷◌, ◌++◌, some, if◌then◌else◌, ltb,
  ◌==◌, take, drop, replicate,
}
use xjtu_os_project.Ext2.Bytes.{
  block_size, slice, splice, u16_bytes, u32_bytes, u16_at, u32_at, words_bytes, words_at,
}
use xjtu_os_project.Ext2.State.{
  Inode, Result, fs_err, ok, err, M, pure, ◌>>=◌, ◌>>◌, attempt, ts_now,
}
use xjtu_os_project.Ext2.Dev.{dev_read_block, dev_write_block}
use xjtu_os_project.Ext2.Bitmap.{max_inodes, free_block}

abbrev pub inode_size : ℕ
inode_size = 128

abbrev pub ndirect : ℕ
ndirect = 10

-- The fields in front of `direct`, 28 bytes.
abbrev pub inode_head : Inode → List ℕ
inode_head i =
    u16_bytes i.mode
    ++ (u16_bytes i.uid
        ++ (u32_bytes i.size
            ++ (u32_bytes i.atime
                ++ (u32_bytes i.mtime
                    ++ (u32_bytes i.ctime
                        ++ (u16_bytes i.gid ++ (u16_bytes i.links ++ u32_bytes i.blocks)))))))

unfoldable pub inode_bytes : Inode → List ℕ
inode_bytes i = inode_head i ++ (words_bytes i.direct ++ (u32_bytes i.indirect1 ++ i.reserve))

unfoldable pub inode_of : List ℕ → Inode
inode_of bs = record {
  mode = u16_at bs 0;
  uid = u16_at bs 2;
  size = u32_at bs 4;
  atime = u32_at bs 8;
  mtime = u32_at bs 12;
  ctime = u32_at bs 16;
  gid = u16_at bs 20;
  links = u16_at bs 22;
  blocks = u32_at bs 24;
  direct = words_at ndirect (drop 28 bs);
  indirect1 = u32_at (drop 40 (drop 28 bs)) 0;
  reserve = take 56 (drop 4 (drop 40 (drop 28 bs)));
}

-- `inode_t in = {0}`
abbrev pub zero_inode : Inode
zero_inode = record {
  mode = 0;
  uid = 0;
  size = 0;
  atime = 0;
  mtime = 0;
  ctime = 0;
  gid = 0;
  links = 0;
  blocks = 0;
  direct = replicate 10 0;
  indirect1 = 0;
  reserve = replicate 56 0;
}

-- The block and the offset of an inode.
unfoldable pub inode_pos : ℕ → M (ℕ × ℕ)
inode_pos ino s =
    let idx : ℕ = (ino - 1) * inode_size in
    if ino == 0 || ltb max_inodes ino
    then some (err fs_err, s)
    else some (ok ((s.g_sb.inode_table_start + idx / block_size) % 2 ^ 32, idx % block_size), s)

unfoldable pub read_inode : ℕ → M Inode
read_inode ino = do
  (blk, off) ← inode_pos ino
  buf ← dev_read_block blk
  pure (inode_of (slice off inode_size buf))

unfoldable pub write_inode : ℕ → Inode → M (Unit {0})
write_inode ino i = do
  (blk, off) ← inode_pos ino
  buf ← dev_read_block blk
  dev_write_block (splice off (inode_bytes i) buf) blk

-- Each block number that is not 0 is freed: the two loops of `inode_truncate`.
unfoldable pub free_all : List ℕ → M (Unit {0})
unfolding free_block
free_all [] = pure tt
free_all (zero ∷ rest) = free_all rest
free_all (suc b ∷ rest) = do free_block (suc b); free_all rest

-- Where the table of the indirect block cannot be read, only the table's own block is freed.
unfoldable pub free_table : Result (List ℕ) → M (Unit {0})
unfolding free_all
free_table (ok tbl) = free_all (words_at 128 tbl)
free_table (err _) = pure tt

unfoldable pub free_indirect : ℕ → M (Unit {0})
unfolding free_table free_block
free_indirect zero = pure tt
free_indirect (suc b) = do
  tbl ← attempt (dev_read_block (suc b))
  free_table tbl
  free_block (suc b)

unfoldable pub inode_truncate : ℕ → M (Unit {0})
unfolding free_all free_indirect
inode_truncate ino = do
  i ← read_inode ino
  free_all i.direct
  free_indirect i.indirect1
  mtime ← ts_now
  ctime ← ts_now
  write_inode ino (record i {
    direct = replicate ndirect 0;
    indirect1 = 0;
    size = 0;
    blocks = 0;
    mtime = mtime;
    ctime = ctime;
  })
