-- ===== src/Ext2/Command/Mkdir.antt =====
-- project3/src/cli.c: `mkdir`, from the directory that it is called in on.
use xjtu_os_project.Prelude.{
  ℕ, ◌≤◌, ◌≡◌, ◌≢◌, refl, ap, sym, ◌∙◌, List, Option, none, some, arith, length,
}
use xjtu_os_project.Ext2.Bytes.{IsBytes}
use xjtu_os_project.Ext2.State.{Inode, Dirent, Fs, Result, ok, err, ◌>>=◌, attempt}
use xjtu_os_project.Ext2.Bitmap.{bit_at}
use xjtu_os_project.Ext2.Bitmap.{alloc_inode}
use xjtu_os_project.Ext2.Bitmap.Alloc.{IsFlipped, InodeAllocated, alloc_inode_lem}
use xjtu_os_project.Ext2.Bitmap.Scan.{IsFull}
use xjtu_os_project.Ext2.Dir.Slots.{IsDirectory}
use xjtu_os_project.Ext2.Dir.Untouched.{flipped-IsDirectory}
use xjtu_os_project.Ext2.Command.Output.{Output, says}
use xjtu_os_project.Ext2.Command.Tree.{mkdir_below}
use xjtu_os_project.Ext2.Command.Making.{MkdirResult, mkdir_in-MkdirResult}

-- The same with the inode that `alloc_inode` finds: if there is none nothing changes; else it was free,
-- and the rest is done with that inode, now taken.
pub data MkdirBelow (name : List ℕ) (parent : ℕ) (pdin : Inode) (es : List Dirent) (s : Fs)
    (r : Option (Result Output × Fs)) : Type 0 where
  no_inode :
      IsFull (s.disk.content s.g_sb.inode_bitmap_blk) 1 257
      → r ≡ some (ok (says "mkdir: no inode"), s)
      → MkdirBelow name parent pdin es s r
  with_inode :
      (ino : ℕ) (t : Fs)
      → IsFlipped s.g_sb.inode_bitmap_blk ino 0 1 s t
      → MkdirResult name parent pdin es ino t r
      → MkdirBelow name parent pdin es s r

module _ (name : List ℕ) (bytes : IsBytes name) (short : length name ≤ 55) {parent : ℕ}
    {pdin : Inode} {es : List Dirent} {s : Fs} (p : IsDirectory parent pdin es s)
    (taken : bit_at (s.disk.content s.g_sb.inode_bitmap_blk) parent ≡ 1) where
  below_from :
      (r : Option (Result ℕ × Fs))
      → alloc_inode s ≡ r
      → InodeAllocated s r
      → MkdirBelow name parent pdin es s (mkdir_below name (ok parent) s)
  unfolding mkdir_below
  below_from none e a = absurd a
  below_from (some (err x, t)) e (q, same, full) =
      no_inode full (rw (e, attempt, ◌>>=◌) (ap (λ u. some (ok (says "mkdir: no inode"), u)) same))
  below_from (some (ok k, t)) e (lo, hi, rest, flipped, sb, gd) =
      rw (e, attempt, ◌>>=◌)
        (with_inode k t flipped
          (mkdir_in-MkdirResult name bytes short other hi t lo (flipped-IsDirectory p k flipped)))
    where
      other : parent ≢ k
      other q =
          let clash : ◌≡◌ {A = ℕ} 1 0 =
            sym taken ∙ (ap (bit_at (s.disk.content s.g_sb.inode_bitmap_blk)) q ∙ flipped.before) in
          absurd (omega (arith, clash))

  -- `mkdir` in a directory with the entries `es`, whose own inode is taken, under a name of at most 55
  -- bytes: where all inodes are taken it reports that and changes nothing. Else an inode that was free
  -- is taken, and it becomes a directory with the entries "." of itself and ".." of the parent; and the
  -- parent has the new entry behind the others, or, where it has 80 entries, is as it was, and the failure
  -- is reported, with the inode still taken. It is undefined only where all blocks below 4096 but one at
  -- most are taken.
  pub mkdir_below-MkdirBelow : MkdirBelow name parent pdin es s (mkdir_below name (ok parent) s)
  mkdir_below-MkdirBelow = below_from _ refl (alloc_inode_lem s p.blocks.mounted)
