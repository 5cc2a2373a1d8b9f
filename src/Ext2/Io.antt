-- ===== src/Ext2/Io.antt =====
-- project3/src/file.c: `fs_read` and `fs_write`.
pub mod Descriptors
pub mod Fuel
pub mod Reads
pub mod Reading
use Prim.Native.Nat.{min}
use xjtu_os_project.Prelude.{
  ℕ, zero, suc, ◌+◌, ◌-◌, ◌/◌, ◌%◌, not, List, [], ◌∷◌, ◌++◌, none, some, if◌then◌else◌, ltb, leb,
  take, drop, get_or, length, ℤ,
}
use xjtu_os_project.Ext2.Bytes.{block_size, slice, splice}
use xjtu_os_project.Ext2.State.{
  Inode, fs_err, eperm, ebadf, ok, err, M, pure, fail, ◌>>=◌, ◌>>◌, get, modify, ignore, or_else,
  ts_now,
}
use xjtu_os_project.Ext2.Dev.{dev_read_block, dev_write_block}
use xjtu_os_project.Ext2.Inode.{read_inode, write_inode}
use xjtu_os_project.Ext2.Map.{perm_can_read, perm_can_write, map_bn_for_read, map_bn_for_write}
use xjtu_os_project.Ext2.Open.{no_file, update_slot, slot_of}

-- The loop of `fs_read`: the bytes, and the position behind them. Every round takes a byte or more,
-- so as many rounds as bytes are enough; running out of rounds is `none`.
unfoldable pub read_loop : ℕ → Inode → ℕ → ℕ → M (List ℕ × ℕ)
unfolding map_bn_for_read
read_loop fuel i at zero s = some (ok ([], at), s)
read_loop zero i at (suc left) s = none
read_loop (suc fuel) i at (suc left) s = elim (map_bn_for_read i (at / block_size) s) [
  | none ↦ none
  | some (err _, s') ↦ some (ok ([], at), s')
  | some (ok phys, s') ↦
      let boff : ℕ = at % block_size in
      let can : ℕ = min (block_size - boff) (suc left) in
      (or_else (dev_read_block phys) fs_err >>= λ blk.
      read_loop fuel i (at + can) (suc left - can) >>= λ (rest, end).
      pure (slice boff can blk ++ rest, end))
        s'
]

unfoldable pub finish_read : ℕ → Inode → List ℕ × ℕ → M (List ℕ)
finish_read n i (bytes, end) = do
  modify (update_slot n (λ f. record f { offset = end }))
  atime ← ts_now
  s ← get
  ignore (write_inode (get_or s.g_ofile n no_file).ino (record i { atime = atime }))
  pure bytes

-- The bytes that `fs_read` puts into `buf`; it returns their number.
unfoldable pub read_slot : ℕ → ℕ → M (List ℕ)
unfolding read_loop finish_read perm_can_read
read_slot n len = do
  s ← get
  let f = get_or s.g_ofile n no_file
  i ← or_else (read_inode f.ino) fs_err
  let rest =
      read_loop (min len (i.size - f.offset)) i f.offset (min len (i.size - f.offset))
      >>= finish_read n i
  if not (perm_can_read i s.g_uid)
      then fail eperm
      else if leb i.size f.offset
      then pure []
      else rest

unfoldable pub fs_read : ℤ → ℕ → M (List ℕ)
unfolding slot_of read_slot
fs_read fd len s = elim (slot_of fd s) [ none ↦ some (err ebadf, s) | some n ↦ read_slot n len s ]

-- The loop of `fs_write`: the inode, and the position behind the bytes written.
unfoldable pub write_loop : ℕ → Inode → ℕ → List ℕ → M (Inode × ℕ)
unfolding map_bn_for_write
write_loop fuel i at [] s = some (ok (i, at), s)
write_loop zero i at (c ∷ buf) s = none
write_loop (suc fuel) i at (c ∷ buf) s =
    let boff : ℕ = at % block_size in
    let can : ℕ = min (block_size - boff) (length (c ∷ buf)) in
    (map_bn_for_write i (at / block_size) >>= λ (i', phys).
    or_else (dev_read_block phys) fs_err >>= λ blk.
    or_else (dev_write_block (splice boff (take can (c ∷ buf)) blk) phys) fs_err >>= λ _.
    write_loop fuel i' (at + can) (drop can (c ∷ buf)))
      s

unfoldable pub finish_write : ℕ → List ℕ → Inode × ℕ → M ℕ
finish_write n buf (i, end) = do
  mtime ← ts_now
  s ← get
  or_else
      (write_inode (get_or s.g_ofile n no_file).ino
        (record i { size = if ltb i.size end then end else i.size; mtime = mtime }))
      fs_err
  modify (update_slot n (λ f. record f { offset = end }))
  pure (length buf)

unfoldable pub write_slot : ℕ → List ℕ → M ℕ
unfolding write_loop finish_write perm_can_write
write_slot n buf = do
  s ← get
  let f = get_or s.g_ofile n no_file
  let body = or_else (read_inode f.ino) fs_err >>= λ i.
      if perm_can_write i s.g_uid
      then write_loop (length buf) i f.offset buf >>= finish_write n buf
      else fail eperm
  if f.writable then body else fail eperm

unfoldable pub fs_write : ℤ → List ℕ → M ℕ
unfolding slot_of write_slot
fs_write fd buf s = elim (slot_of fd s) [ none ↦ some (err ebadf, s) | some n ↦ write_slot n buf s ]
