-- ===== src/Ext2/Map.antt =====
-- project3/src/file.c: permissions, and the map from a file's blocks to the disk's. A block number
-- is taken from the disk as it stands there; one of 2^31 or more is a negative `int`, and so an error
-- with that number as its code.
pub mod Fresh
pub mod Blocks
pub mod Table
pub mod Agreement
use Prim.Native.Nat.{bit_and}
use xjtu_os_project.Prelude.{
  ℕ, zero, suc, ◌+◌, ◌-◌, ◌%◌, ◌^◌, Bool, true, not, List, if◌then◌else◌, ltb, leb, ◌==◌, get_or,
  set,
}
use xjtu_os_project.Ext2.Bytes.{zero_block, words_bytes, words_at}
use xjtu_os_project.Ext2.State.{
  Inode, Errno, fs_err, enoent, eexist, enospc, enotdir, eisdir, eperm, ebadf, raw, M, pure, fail,
  ◌>>=◌, ◌>>◌, ignore, or_else, ts_now,
}
use xjtu_os_project.Ext2.Dev.{dev_read_block, dev_write_block}
use xjtu_os_project.Ext2.Bitmap.{alloc_block}
use xjtu_os_project.Ext2.Inode.{ndirect}

-- `g_uid` is an `int`, kept as its 32 bits; the cast to `uint16_t` is `% 2 ^ 16`.
unfoldable pub perm_can_read : Inode → ℕ → Bool
perm_can_read i uid =
    if uid == 0
    then true
    else if i.uid == uid % 2 ^ 16
    then not (bit_and i.mode 0o400 == 0)
    else not (bit_and i.mode 0o004 == 0)

unfoldable pub perm_can_write : Inode → ℕ → Bool
perm_can_write i uid =
    if uid == 0
    then true
    else if i.uid == uid % 2 ^ 16
    then not (bit_and i.mode 0o200 == 0)
    else not (bit_and i.mode 0o002 == 0)

-- The negative `int` -n as a result code.
unfoldable pub errno_of : ℕ → Errno
errno_of n =
    if n == 1
    then fs_err
    else if n == 2
    then enoent
    else if n == 3
    then eexist
    else if n == 4
    then enospc
    else if n == 5
    then enotdir
    else if n == 6
    then eisdir
    else if n == 7
    then eperm
    else if n == 8
    then ebadf
    else raw n

-- `return (int)b` of a block number, which every caller tests with `< 0`.
unfoldable pub as_int : ℕ → M ℕ
unfolding errno_of
as_int b = if ltb b (2 ^ 31) then pure b else fail (errno_of (2 ^ 32 - b))

-- A new data block, zeroed.
unfoldable pub new_block : M ℕ
unfolding alloc_block
new_block = do b ← alloc_block; ignore (dev_write_block zero_block b); pure b

unfoldable pub map_direct : Inode → ℕ → M (Inode × ℕ)
unfolding new_block as_int
map_direct i bn =
    let fresh = new_block >>= λ b. ts_now >>= λ now.
    pure
      (record i { direct = set i.direct bn b; blocks = (i.blocks + 1) % 2 ^ 32; ctime = now }, b) in
    let old = as_int (get_or i.direct bn 0) >>= λ b. pure (i, b) in
    if get_or i.direct bn 0 == 0 then fresh else old

-- The table of the indirect block, allocated where there is none.
unfoldable pub ensure_table : Inode → M Inode
unfolding new_block
ensure_table i =
    let fresh =
      new_block >>= λ b. ts_now >>= λ now. pure (record i { indirect1 = b; ctime = now }) in
    if i.indirect1 == 0 then fresh else pure i

unfoldable pub map_in_table : Inode → ℕ → List ℕ → M (Inode × ℕ)
unfolding new_block as_int
map_in_table i idx tbl =
    let fresh = (do
      b ← new_block
      or_else (dev_write_block (words_bytes (set tbl idx b)) i.indirect1) fs_err
      now ← ts_now
      pure (record i { blocks = (i.blocks + 1) % 2 ^ 32; ctime = now }, b)) in
    let old = as_int (get_or tbl idx 0) >>= λ b. pure (i, b) in
    if get_or tbl idx 0 == 0 then fresh else old

unfoldable pub map_indirect : Inode → ℕ → M (Inode × ℕ)
unfolding ensure_table map_in_table
map_indirect i idx = do
  i' ← ensure_table i
  buf ← or_else (dev_read_block i'.indirect1) fs_err
  map_in_table i' idx (words_at 128 buf)

-- The new inode, and the block.
unfoldable pub map_bn_for_write : Inode → ℕ → M (Inode × ℕ)
unfolding map_direct map_indirect
map_bn_for_write i bn =
    if ltb bn ndirect
    then map_direct i bn
    else if leb 128 (bn - ndirect)
    then fail enospc
    else map_indirect i (bn - ndirect)

abbrev pub block_or_err : ℕ → M ℕ
block_or_err zero = fail fs_err
block_or_err (suc b) = as_int (suc b)

unfoldable pub map_bn_for_read : Inode → ℕ → M ℕ
unfolding as_int
map_bn_for_read i bn =
    let in_table = or_else (dev_read_block i.indirect1) fs_err >>= λ buf.
    block_or_err (get_or (words_at 128 buf) (bn - ndirect) 0) in
    if ltb bn ndirect
    then block_or_err (get_or i.direct bn 0)
    else if i.indirect1 == 0
    then fail fs_err
    else if leb 128 (bn - ndirect)
    then fail fs_err
    else in_table
