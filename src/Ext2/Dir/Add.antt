-- ===== src/Ext2/Dir/Add.antt =====
-- project3/src/dir.c: `dir_add`, and what `dir_lookup` finds after it.

use mathlib.Core.Path.{subst}
use xjtu_os_project.Prelude.{
  ◌%◌, ℕ, suc, ◌-◌, ◌/◌, ◌^◌, ◌<◌, ◌≤◌, ◌≡◌, List, [], ◌∷◌, ◌++◌, arith, length, take, replicate,
  length-append,
}
use xjtu_os_project.Ext2.Bytes.{IsBytes, u16_bytes, u32_bytes}
use xjtu_os_project.Ext2.Bytes.Laws.{append-IsBytes, take-IsBytes, replicate-IsBytes}
use xjtu_os_project.Ext2.State.{Inode, Dirent, Fs, ◌>>=◌}
use xjtu_os_project.Ext2.Dir.{dirent_size, dirent_bytes, strncpy, append_entry, dir_add}
use xjtu_os_project.Ext2.Dir.Entries.{IsDirent}
use xjtu_os_project.Ext2.Dir.Names.{added, added-IsDirent}
use xjtu_os_project.Ext2.Dir.Slots.{IsDirectory, read_dir_inode_lem}
use xjtu_os_project.Ext2.Dir.Appending.{AddResult, append_entry-AddResult}

module _ (de : Dirent) (v : IsDirent de) (bs : IsBytes de.name) where
  length-dirent_bytes : length (dirent_bytes de) ≡ 64
  unfolding dirent_bytes
  length-dirent_bytes = omega (arith, length-append de.name (0 ∷ []), v.name_length)

  dirent_bytes-IsBytes : IsBytes (dirent_bytes de)
  unfolding dirent_bytes
  dirent_bytes-IsBytes =
      append-IsBytes (u32_bytes de.ino)
        (u16_bytes de.reclen ++ (de.file_type % 256 ∷ (de.name ++ 0 ∷ []))) (omega arith)
        (append-IsBytes (u16_bytes de.reclen) (de.file_type % 256 ∷ (de.name ++ 0 ∷ []))
          (omega arith) (omega arith, append-IsBytes de.name (0 ∷ []) bs (omega arith)))

strncpy-IsBytes : (n : ℕ) (name : List ℕ) → IsBytes name → IsBytes (strncpy n name)
unfolding strncpy
strncpy-IsBytes n name h =
    append-IsBytes (take n name) (replicate (suc n - length (take n name)) 0)
      (take-IsBytes n name h) (replicate-IsBytes (suc n - length (take n name)))

module _ {dir : ℕ} {din : Inode} {es : List Dirent} {s : Fs} (d : IsDirectory dir din es s)
    (name : List ℕ) (ftype ino : ℕ) (bytes : IsBytes name) (short : length name ≤ 55)
    (ft : ftype < 256) (in_range : ino < 2 ^ 32) where
  -- In a directory with the entries `es`, `dir_add` of a name of at most 55 bytes puts the entry with
  -- that name, type and inode behind the others, in a new block if the others fill their blocks, and no
  -- other inode and no taken block changes but blocks of the directory. It
  -- returns FS_ENOSPC and changes nothing where there are 80 entries, and is undefined only where a new
  -- block is needed and all blocks below 4096 are taken.
  pub dir_add-AddResult :
      AddResult dir din es (added name ftype ino) s (dir_add dir name ftype ino s)
  unfolding dir_add
  dir_add-AddResult =
      let de = added name ftype ino in
      let v = added-IsDirent name ftype ino short ft in_range in
      let bs = strncpy-IsBytes 55 name bytes in
      rw (read_dir_inode_lem d, ◌>>=◌)
        (subst (λ n. AddResult dir din es de s (append_entry dir n de din s)) {x = length es}
          {y = din.size / dirent_size} (omega (arith, d.size))
          (append_entry-AddResult d de v (length-dirent_bytes de v bs)
            (dirent_bytes-IsBytes de v bs)))
