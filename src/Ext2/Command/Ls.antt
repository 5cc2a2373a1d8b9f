-- ===== src/Ext2/Command/Ls.antt =====
-- project3/src/cli.c: `cmd_ls`.
use xjtu_os_project.Prelude.{
  ℕ, zero, suc, ◌+◌, ◌/◌, List, [], ◌∷◌, Option, none, some, if◌then◌else◌, leb, ◌==◌, get_or,
}
use xjtu_os_project.Ext2.Bytes.{slice}
use xjtu_os_project.Ext2.State.{Inode, Dirent, Result, ok, err, M, pure, undefined, ◌>>=◌, attempt}
use xjtu_os_project.Ext2.Dev.{dev_read_block}
use xjtu_os_project.Ext2.Bitmap.{lift}
use xjtu_os_project.Ext2.Inode.{ndirect, read_inode}
use xjtu_os_project.Ext2.Dir.{dirent_size, dirent_of, is_dir, entry_block, entry_off, namei}
use xjtu_os_project.Ext2.Text.{strchr}
use xjtu_os_project.Ext2.Format.{ft_dir}
use xjtu_os_project.Ext2.Listing.{mode_to_str}
use xjtu_os_project.Ext2.Command.Output.{Row, Output, says, rows}

-- `%s` of the name of an entry: its bytes up to a zero, which is undefined where it has none.
abbrev pub c_string : List ℕ → Option (List ℕ)
c_string bs = elim (strchr 0 bs) [ none ↦ none | some (name, _) ↦ some name ]

abbrev pub more_rows : Option Row → List Row → List Row
more_rows none rs = rs
more_rows (some r) rs = r ∷ rs

unfoldable pub row_of : Dirent → Result Inode → M (Option Row)
unfolding mode_to_str
row_of de (err _) = pure none
row_of de (ok child) = do
  name ← lift (c_string de.name)
  pure (
      some (record {
        modes = mode_to_str child.mode;
        uid = child.uid;
        is_directory = de.file_type == ft_dir;
        name = name;
        size = child.size;
        ctime = child.ctime;
        mtime = child.mtime;
        atime = child.atime;
      }))

-- The row of an entry, or none where the loop goes on without printing.
unfoldable pub entry_row : Dirent → M (Option Row)
unfolding row_of
entry_row de =
    let body = attempt (read_inode de.ino) >>= row_of de in if de.ino == 0 then pure none else body

unfoldable pub block_row : ℕ → Result (List ℕ) → M (Option Row)
unfolding entry_row
block_row i (err _) = pure none
block_row i (ok blk) = entry_row (dirent_of (slice (entry_off i) dirent_size blk))

-- `direct` has ten entries: the loop of `ls` has no test of the block number.
unfoldable pub list_row : Inode → ℕ → M (Option Row)
unfolding block_row
list_row din i =
    let b : ℕ = get_or din.direct (entry_block i) 0 in
    let body = attempt (dev_read_block b) >>= block_row i in
    if leb ndirect (entry_block i) then undefined else if b == 0 then pure none else body

-- The loop of `ls` over `n` entries from `i` on.
unfoldable pub list_rows : Inode → ℕ → ℕ → M (List Row)
unfolding list_row
list_rows din zero i = pure []
list_rows din (suc n) i = do
  r ← list_row din i
  rest ← list_rows din n (i + 1)
  pure (more_rows r rest)

unfoldable pub ls_inode : Result Inode → M Output
unfolding list_rows
ls_inode (err _) = pure (says "ls: read inode fail")
ls_inode (ok din) =
    let body = list_rows din (din.size / dirent_size) 0 >>= λ rs. pure (rows rs) in
    if is_dir din.mode then body else pure (says "ls: not a directory")

unfoldable pub ls_at : Result ℕ → M Output
unfolding ls_inode
ls_at (err _) = pure (says "ls: no such file/dir")
ls_at (ok ino) = attempt (read_inode ino) >>= ls_inode

abbrev pub path_or_cwd : List ℕ → M ℕ
path_or_cwd [] s = some (ok s.g_cwd, s)
path_or_cwd (c ∷ path) s = namei (c ∷ path) s

-- A path that is not given is the empty one.
unfoldable pub cmd_ls : List ℕ → M Output
unfolding ls_at
cmd_ls path = attempt (path_or_cwd path) >>= ls_at
