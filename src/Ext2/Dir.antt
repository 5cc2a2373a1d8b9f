-- ===== src/Ext2/Dir.antt =====
-- project3/src/dir.c: directories and paths. A C string is the list of its bytes in front of the
-- zero byte that ends it.
pub mod Entries
pub mod Names
pub mod Slots
pub mod Untouched
pub mod Keeping
pub mod Empty
pub mod Roundtrip
pub mod Add
pub mod Appending
pub mod Adding
pub mod Growing
pub mod Removing
pub mod Blocks
pub mod Lookup
pub mod Tests
use Prim.Native.Nat.{bit_and}
use xjtu_os_project.Prelude.{
  ℕ, zero, suc, ◌+◌, ◌-◌, ◌*◌, ◌/◌, ◌%◌, ◌^◌, Bool, true, false, not, ◌&&◌, ◌||◌, List, [], ◌∷◌,
  ◌++◌, Option, none, some, if◌then◌else◌, leb, ◌==◌, take, drop, replicate, get_or, set, length,
}
use xjtu_os_project.Ext2.Bytes.{
  block_size, zero_block, slice, splice, u16_bytes, u32_bytes, u16_at, u32_at,
}
use xjtu_os_project.Ext2.State.{
  Inode, Dirent, fs_err, enoent, enotdir, enospc, ok, err, M, pure, fail, ◌>>=◌, ◌>>◌, ignore, must,
  or_else, ts_now,
}
use xjtu_os_project.Ext2.Dev.{dev_read_block, dev_write_block}
use xjtu_os_project.Ext2.Bitmap.{alloc_block}
use xjtu_os_project.Ext2.Inode.{ndirect, read_inode, write_inode}

abbrev pub name_max_len : ℕ
name_max_len = 56

abbrev pub dirent_size : ℕ
dirent_size = 64

-- The 64 bytes of a `dirent_t`, with the gap at the end.
unfoldable pub dirent_bytes : Dirent → List ℕ
dirent_bytes de =
    u32_bytes de.ino ++ (u16_bytes de.reclen ++ (de.file_type % 256 ∷ (de.name ++ 0 ∷ [])))

unfoldable pub dirent_of : List ℕ → Dirent
dirent_of bs = record {
  ino = u32_at bs 0;
  reclen = u16_at bs 4;
  file_type = get_or bs 6 0;
  name = take name_max_len (drop 7 bs);
}

-- `strncmp(a, b, n) == 0`, where past the end of the list stands the zero byte.
unfoldable pub strncmp_eq : ℕ → List ℕ → List ℕ → Bool
strncmp_eq zero a b = true
strncmp_eq (suc n) [] [] = true
strncmp_eq (suc n) [] (y ∷ b) = y == 0
strncmp_eq (suc n) (x ∷ a) [] = x == 0
strncmp_eq (suc n) (x ∷ a) (y ∷ b) = x == y && (x == 0 || strncmp_eq n a b)

-- `strncpy(out, name, n)` into an array of zeros with one more byte.
unfoldable pub strncpy : ℕ → List ℕ → List ℕ
strncpy n name = take n name ++ replicate (suc n - length (take n name)) 0

-- `(mode & 0170000) == 0040000`
unfoldable pub is_dir : ℕ → Bool
is_dir mode = bit_and mode 0o170000 == 0o040000

unfoldable pub read_dir_block : Inode → ℕ → M (List ℕ)
read_dir_block i bn =
    if leb ndirect bn
    then fail fs_err
    else if get_or i.direct bn 0 == 0
    then fail fs_err
    else dev_read_block (get_or i.direct bn 0)

-- A new block, zeroed on disk and entered as direct block `bn`.
unfoldable pub new_dir_block : Inode → ℕ → M (Inode × List ℕ)
unfolding alloc_block
new_dir_block i bn = do
  b ← alloc_block
  ignore (dev_write_block zero_block b)
  ctime ← ts_now
  pure (
    record i { direct = set i.direct bn b; blocks = (i.blocks + 1) % 2 ^ 32; ctime = ctime },
    zero_block,
  )

-- Returns the inode and the buffer, which the caller sees through its pointers. The result code of
-- the read is not looked at.
unfoldable pub ensure_dir_block : Inode → ℕ → M (Inode × List ℕ)
unfolding new_dir_block
ensure_dir_block i bn =
    let fresh = new_dir_block i bn in
    let old = must (dev_read_block (get_or i.direct bn 0)) >>= λ blk. pure (i, blk) in
    if leb ndirect bn then fail enospc else if get_or i.direct bn 0 == 0 then fresh else old

-- A used entry with the name.
abbrev pub is_entry : List ℕ → Dirent → Bool
is_entry name de = not (de.ino == 0) && strncmp_eq name_max_len de.name name

-- Block number and offset of entry `i`, in `uint32_t` (the product is of a `size_t`).
abbrev pub entry_block : ℕ → ℕ
entry_block i = i * dirent_size / block_size

abbrev pub entry_off : ℕ → ℕ
entry_off i = i * dirent_size % block_size

-- The loop of `dir_lookup` and of `dir_remove`, over `n` entries from `i` on: the first used entry
-- with the name, with its index and its block. A block that cannot be read is skipped.
unfoldable pub find_entry : Inode → List ℕ → ℕ → ℕ → M (Option (ℕ × Dirent × List ℕ))
find_entry din name zero i s = some (ok none, s)
find_entry din name (suc n) i s = elim (read_dir_block din (entry_block i) s) [
  | none ↦ none
  | some (err _, s') ↦ find_entry din name n (i + 1) s'
  | some (ok blk, s') ↦ elim (is_entry name (dirent_of (slice (entry_off i) dirent_size blk))) [
    | true ↦ some (ok (some (i, dirent_of (slice (entry_off i) dirent_size blk), blk)), s')
    | false ↦ find_entry din name n (i + 1) s'
  ]
]

-- The inode of a directory, which `dir_lookup` and `dir_add` read first. `dir_remove` does not look
-- at the mode.
unfoldable pub read_dir_inode : ℕ → M Inode
read_dir_inode dir_ino = do
  din ← or_else (read_inode dir_ino) fs_err
  if is_dir din.mode then pure din else fail enotdir

abbrev pub found_ino : Option (ℕ × Dirent × List ℕ) → M ℕ
found_ino none = fail enoent
found_ino (some (i, de, blk)) = pure de.ino

unfoldable pub dir_lookup : ℕ → List ℕ → M ℕ
unfolding read_dir_inode find_entry
dir_lookup dir_ino name = do
  din ← read_dir_inode dir_ino
  found ← find_entry din name (din.size / dirent_size) 0
  found_ino found

-- The entry is copied into its block, and the inode is written with the new size.
unfoldable pub put_entry : ℕ → ℕ → Dirent → Inode × List ℕ → M (Unit {0})
put_entry dir_ino idx de (din, blk) = do
  or_else
      (dev_write_block (splice (entry_off idx) (dirent_bytes de) blk)
        (get_or din.direct (entry_block idx) 0))
      fs_err
  mtime ← ts_now
  write_inode dir_ino (record din { size = (din.size + dirent_size) % 2 ^ 32; mtime = mtime })

unfoldable pub append_entry : ℕ → ℕ → Dirent → Inode → M (Unit {0})
unfolding ensure_dir_block put_entry
append_entry dir_ino idx de din = do
  place ← or_else (ensure_dir_block din (entry_block idx)) enospc
  put_entry dir_ino idx de place

unfoldable pub dir_add : ℕ → List ℕ → ℕ → ℕ → M (Unit {0})
unfolding read_dir_inode append_entry
dir_add dir_ino name ftype child_ino = do
  din ← read_dir_inode dir_ino
  let de : Dirent = record {
    ino = child_ino;
    reclen = dirent_size;
    file_type = ftype;
    name = strncpy (name_max_len - 1) name;
  }
  append_entry dir_ino (din.size / dirent_size) de din

unfoldable pub erase_entry : ℕ → Inode → Option (ℕ × Dirent × List ℕ) → M (Unit {0})
erase_entry dir_ino din none = fail enoent
erase_entry dir_ino din (some (i, de, blk)) = do
  or_else
      (dev_write_block (splice (entry_off i) (replicate dirent_size 0) blk)
        (get_or din.direct (entry_block i) 0))
      fs_err
  mtime ← ts_now
  ignore (write_inode dir_ino (record din { mtime = mtime }))

unfoldable pub dir_remove : ℕ → List ℕ → M (Unit {0})
unfolding find_entry erase_entry
dir_remove dir_ino name = do
  din ← or_else (read_inode dir_ino) fs_err
  found ← find_entry din name (din.size / dirent_size) 0
  erase_entry dir_ino din found

-- The pieces of a path between its slashes, cut to `NAME_MAX_LEN-1` bytes; `seg` is the piece read
-- so far. Empty pieces are left out, as `namei` skips them.
abbrev pub finish : List ℕ → List (List ℕ) → List (List ℕ)
finish [] rest = rest
finish (c ∷ seg) rest = take (name_max_len - 1) (c ∷ seg) ∷ rest

unfoldable pub segments : List ℕ → List ℕ → List (List ℕ)
segments seg [] = finish seg []
segments seg (c ∷ path) =
    let at_slash = finish seg (segments [] path) in
    let in_name = segments (seg ++ c ∷ []) path in if c == b'/' then at_slash else in_name

unfoldable pub walk_path : ℕ → List (List ℕ) → M ℕ
unfolding dir_lookup
walk_path cur [] s = some (ok cur, s)
walk_path cur (seg ∷ rest) s = elim (dir_lookup cur seg s) [
  | none ↦ none
  | some (err e, s') ↦ some (err e, s')
  | some (ok nxt, s') ↦ walk_path nxt rest s'
]

abbrev pub starts_at_root : List ℕ → Bool
starts_at_root [] = false
starts_at_root (c ∷ _) = c == b'/'

unfoldable pub namei : List ℕ → M ℕ
unfolding walk_path segments
namei [] s = some (err fs_err, s)
namei (c ∷ path) s =
    walk_path (if c == b'/' then s.g_sb.root_ino else s.g_cwd) (segments [] (c ∷ path)) s
