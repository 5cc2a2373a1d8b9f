-- ===== src/Ext2/Command/Tree.antt =====
-- project3/src/cli.c: `cmd_mkdir`, `cmd_cd` and `cmd_delete`.
use xjtu_os_project.Prelude.{
  ℕ, ◌*◌, ◌%◌, ◌^◌, ◌&&◌, List, Option, none, some, if◌then◌else◌, ltb, leb, length,
}
use xjtu_os_project.Ext2.State.{
  Result, ok, err, M, pure, undefined, ◌>>=◌, ◌>>◌, get, modify, ignore, must, attempt, ts_now,
}
use xjtu_os_project.Ext2.Bitmap.{alloc_inode, free_inode}
use xjtu_os_project.Ext2.Inode.{zero_inode, read_inode, write_inode, inode_truncate}
use xjtu_os_project.Ext2.Dir.{dirent_size, is_dir, dir_add, dir_remove, namei}
use xjtu_os_project.Ext2.Open.{strrchr_slash, or_root, leaf_name}
use xjtu_os_project.Ext2.Text.{codes}
use xjtu_os_project.Ext2.Format.{mode_dir, ft_dir}
use xjtu_os_project.Ext2.Command.Output.{Output, says, say_if}

unfoldable pub mkdir_in : List ℕ → ℕ → Result ℕ → M Output
mkdir_in name parent (err _) = pure (says "mkdir: no inode")
mkdir_in name parent (ok ino) = do
  s ← get
  ctime ← ts_now
  mtime ← ts_now
  atime ← ts_now
  ignore (
      write_inode ino (record zero_inode {
        mode = mode_dir;
        links = 2;
        uid = s.g_uid % 2 ^ 16;
        ctime = ctime;
        mtime = mtime;
        atime = atime;
      }))
  ignore (dir_add ino (codes ".") ft_dir ino)
  ignore (dir_add ino (codes "..") ft_dir parent)
  r ← attempt (dir_add parent name ft_dir ino)
  say_if "[OK]" "mkdir: dir_add fail" r

unfoldable pub mkdir_below : List ℕ → Result ℕ → M Output
unfolding mkdir_in
mkdir_below name (err _) = pure (says "mkdir: parent missing")
mkdir_below name (ok parent) = attempt alloc_inode >>= mkdir_in name parent

unfoldable pub mkdir_split : List ℕ → Option (List ℕ × List ℕ) → M Output
unfolding mkdir_below
mkdir_split path none = do s ← get; mkdir_below (leaf_name path none) (ok s.g_cwd)
mkdir_split path (some (parent, leaf)) =
    let body =
      attempt (namei (or_root parent)) >>= mkdir_below (leaf_name path (some (parent, leaf))) in
    if leb 256 (length parent) then pure (says "mkdir: path too long") else body

unfoldable pub cmd_mkdir : List ℕ → M Output
unfolding mkdir_split strrchr_slash
cmd_mkdir path = mkdir_split path (strrchr_slash path)

abbrev pub changed_dir : Result ℕ → M Output
changed_dir (err _) = pure (says "[ERR]")
changed_dir (ok ino) = modify (λ s. record s { g_cwd = ino }) >>= λ _. pure (says "[OK]")

unfoldable pub cmd_cd : List ℕ → M Output
cmd_cd path = attempt (namei path) >>= changed_dir

-- The directory that `delete` takes the entry from, and the name. The array `parent` has 256 bytes,
-- and where `namei` fails `p` is not set.
unfoldable pub delete_from : List ℕ → Option (List ℕ × List ℕ) → M (Unit {0})
delete_from path none = do s ← get; dir_remove s.g_cwd path
delete_from path (some (parent, leaf)) =
    let body = must (namei (or_root parent)) >>= λ p. dir_remove p leaf in
    if leb 256 (length parent) then undefined else body

unfoldable pub delete_inode : List ℕ → ℕ → M Output
unfolding delete_from strrchr_slash
delete_inode path ino = do
  ignore (inode_truncate ino)
  ignore (free_inode ino)
  ignore (delete_from path (strrchr_slash path))
  pure (says "[OK]")

unfoldable pub delete_at : List ℕ → Result ℕ → M Output
unfolding delete_inode
delete_at path (err _) = pure (says "delete: noent")
delete_at path (ok ino) = do
  i ← must (read_inode ino)
  if is_dir i.mode && ltb (2 * dirent_size) i.size
      then pure (says "delete: dir not empty")
      else delete_inode path ino

unfoldable pub cmd_delete : List ℕ → M Output
unfolding delete_at
cmd_delete path = attempt (namei path) >>= delete_at path
