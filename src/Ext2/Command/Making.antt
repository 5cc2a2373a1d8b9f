-- ===== src/Ext2/Command/Making.antt =====
-- project3/src/cli.c: what `mkdir` does to the directory that it is called in.
use xjtu_os_project.Prelude.{
  ℕ, ◌+◌, ◌%◌, ◌^◌, ◌<◌, ◌≤◌, ◌≡◌, ◌≢◌, refl, ap, sym, ◌∙◌, List, [], ◌∷◌, ◌++◌, Option, none, some,
  arith, length,
}
use xjtu_os_project.Ext2.Bytes.{IsBytes}
use xjtu_os_project.Ext2.Bytes.Laws.{replicate-IsBytes}
use xjtu_os_project.Ext2.State.{
  Inode, Dirent, Fs, Result, ok, M, ◌>>=◌, ◌>>◌, get, ignore, attempt, ts_now,
}
use xjtu_os_project.Ext2.Dev.Laws.{IsMounted, IsMounted-same}
use xjtu_os_project.Ext2.Bitmap.{bit_at, blk_data_start, max_inodes}
use xjtu_os_project.Ext2.Inode.{zero_inode}
use xjtu_os_project.Ext2.Inode.Bytes.{IsInode}
use xjtu_os_project.Ext2.Inode.Table.{stored_inode, write_inode_run}
use xjtu_os_project.Ext2.Map.Fresh.{bitmap_of}
use xjtu_os_project.Ext2.Text.{codes}
use xjtu_os_project.Ext2.Dir.{is_dir, dir_add}
use xjtu_os_project.Ext2.Dir.Names.{added}
use xjtu_os_project.Ext2.Dir.Slots.{IsDirectory}
use xjtu_os_project.Ext2.Dir.Empty.{empty_lem}
use xjtu_os_project.Ext2.Dir.Keeping.{AreApart, IsDirectory-kept, still_apart}
use xjtu_os_project.Ext2.Dir.Untouched.{asked, stored-IsDirectory}
use xjtu_os_project.Ext2.Dir.Appending.{AddResult, bitmap_full, no_space, adds}
use xjtu_os_project.Ext2.Dir.Add.{dir_add-AddResult}
use xjtu_os_project.Ext2.Format.{mode_dir, ft_dir}
use xjtu_os_project.Ext2.Command.Output.{Output, says, say_if}
use xjtu_os_project.Ext2.Command.Tree.{mkdir_in}

abbrev pub dots : ℕ → ℕ → List Dirent
dots ino parent = added (codes ".") ft_dir ino ∷ added (codes "..") ft_dir parent ∷ []

-- What becomes of directory `parent` with the entries `es`, when `mkdir` makes inode `ino` one of its
-- directories under a name: undefined only where all blocks below 4096 but one at most are taken; else the new directory has the
-- entries "." and "..", and the parent has the new entry behind the others, or has 80 entries and is as
-- it was.
pub data MkdirResult (name : List ℕ) (parent : ℕ) (pdin : Inode) (es : List Dirent) (ino : ℕ)
    (s : Fs) : Option (Result Output × Fs) → Type 0 where
  no_block :
      (b : ℕ)
      → ((k : ℕ) → blk_data_start ≤ k → k < 4096 → k ≢ b → bit_at (bitmap_of s) k ≢ 0)
      → MkdirResult name parent pdin es ino s none
  parent_full :
      {din : Inode} {t : Fs}
      → length es ≡ 80
      → IsDirectory ino din (dots ino parent) t
      → IsDirectory parent pdin es t
      → MkdirResult name parent pdin es ino s (some (ok (says "mkdir: dir_add fail"), t))
  makes :
      {din pdin' : Inode} {t : Fs}
      → IsDirectory ino din (dots ino parent) t
      → IsDirectory parent pdin' (es ++ added name ft_dir ino ∷ []) t
      → MkdirResult name parent pdin es ino s (some (ok (says "[OK]"), t))

-- The inode of the new directory.
abbrev new_inode : Fs → Inode
new_inode s = record zero_inode {
  mode = mode_dir;
  links = 2;
  uid = s.g_uid % 2 ^ 16;
  ctime = s.clock s.calls % 2 ^ 32;
  mtime = s.clock (s.calls + 1) % 2 ^ 32;
  atime = s.clock (s.calls + 1 + 1) % 2 ^ 32;
}

new_inode-IsInode : (s : Fs) → IsInode (new_inode s)
new_inode-IsInode s = record {
  mode = omega arith;
  uid = omega arith;
  size = omega arith;
  atime = omega arith;
  mtime = omega arith;
  ctime = omega arith;
  gid = omega arith;
  links = omega arith;
  blocks = omega arith;
  direct = omega arith;
  direct_length = refl;
  indirect1 = omega arith;
  reserve = replicate-IsBytes 56;
  reserve_length = refl;
}

-- The three calls of `dir_add`.
abbrev link_parent : List ℕ → ℕ → ℕ → M Output
link_parent name parent ino = do
  r ← attempt (dir_add parent name ft_dir ino)
  say_if "[OK]" "mkdir: dir_add fail" r

abbrev link_dot_dot : List ℕ → ℕ → ℕ → M Output
link_dot_dot name parent ino = do
  ignore (dir_add ino (codes "..") ft_dir parent)
  link_parent name parent ino

abbrev link_dot : List ℕ → ℕ → ℕ → M Output
link_dot name parent ino = do
  ignore (dir_add ino (codes ".") ft_dir ino)
  link_dot_dot name parent ino

module _ (name : List ℕ) (bytes : IsBytes name) (short : length name ≤ 55) {parent : ℕ}
    {pdin : Inode} {es : List Dirent} {ino : ℕ} (ne : parent ≢ ino) (small : ino ≤ max_inodes)
    (s : Fs) where
  parent_linked :
      {din : Inode} {u : Fs} (b : ℕ) (r : Option (Result (Unit {0}) × Fs))
      → ((j : ℕ) → j ≢ b → bit_at (bitmap_of u) j ≡ bit_at (bitmap_of s) j)
      → IsDirectory ino din (dots ino parent) u
      → IsDirectory parent pdin es u
      → AreApart din.direct 2 pdin.direct (length es)
      → dir_add parent name ft_dir ino u ≡ r
      → AddResult parent pdin es (added name ft_dir ino) u r
      → MkdirResult name parent pdin es ino s (link_parent name parent ino u)
  parent_linked b _ bits c p ap_ e (bitmap_full at f) =
      rw (e, attempt, ◌>>=◌) (no_block b (λ k lo hi other. rw (← bits k other) (f k lo hi)))
  parent_linked b _ bits c p ap_ e (no_space l) = rw (e, attempt, ◌>>=◌) (parent_full l c p)
  parent_linked b _ bits c p ap_ e (adds d k) =
      rw (e, attempt, ◌>>=◌) (makes (IsDirectory-kept c k (λ q. ne (sym q)) ap_) d)

  dot_dot_linked :
      {din : Inode} {u : Fs} (b : ℕ) (r : Option (Result (Unit {0}) × Fs))
      → ((j : ℕ) → j ≢ b → bit_at (bitmap_of u) j ≡ bit_at (bitmap_of s) j)
      → IsDirectory ino din (added (codes ".") ft_dir ino ∷ []) u
      → IsDirectory parent pdin es u
      → AreApart pdin.direct (length es) din.direct 1
      → dir_add ino (codes "..") ft_dir parent u ≡ r
      → AddResult ino din (added (codes ".") ft_dir ino ∷ []) (added (codes "..") ft_dir parent) u r
      → MkdirResult name parent pdin es ino s (link_dot_dot name parent ino u)
  dot_dot_linked b _ bits c p a e (bitmap_full at f) = absurd (omega arith)
  dot_dot_linked b _ bits c p a e (no_space l) = absurd (omega arith)
  dot_dot_linked b _ bits c p a e (adds {t} d k) =
      let p' = IsDirectory-kept p k ne a in
      let a' = still_apart p k ne a in
      rw (e, ignore, ◌>>◌, ◌>>=◌)
        (parent_linked b _ (λ j other. k.no_bit (λ q. absurd (omega (arith, q))) j ∙ bits j other) d
          p' (λ b c hb hc q. a' c b hc hb (sym q)) refl
          (dir_add-AddResult p' name ft_dir ino bytes short (omega arith) (omega arith)))

  dot_linked :
      {din : Inode} {u : Fs} (r : Option (Result (Unit {0}) × Fs))
      → ((j : ℕ) → bit_at (bitmap_of u) j ≡ bit_at (bitmap_of s) j)
      → IsDirectory ino din [] u
      → IsDirectory parent pdin es u
      → dir_add ino (codes ".") ft_dir ino u ≡ r
      → AddResult ino din [] (added (codes ".") ft_dir ino) u r
      → MkdirResult name parent pdin es ino s (link_dot name parent ino u)
  dot_linked _ bits c p e (bitmap_full at f) =
      rw (e, ignore, ◌>>◌, ◌>>=◌) (no_block 0 (λ k lo hi other. rw (← bits k) (f k lo hi)))
  dot_linked _ bits c p e (no_space l) = absurd (omega arith)
  dot_linked _ bits c p e (adds {t} d k) =
      let apart : AreApart pdin.direct (length es) _ 0 = λ b c hb hc. absurd (omega arith) in
      let p' = IsDirectory-kept p k ne apart in
      let a' = still_apart p k ne apart in
      rw (e, ignore, ◌>>◌, ◌>>=◌)
        (dot_dot_linked k.one_bit.0 _ (λ j other. k.one_bit.1 j other ∙ bits j) d p' a' refl
          (dir_add-AddResult d (codes "..") ft_dir parent (omega arith) (omega arith) (omega arith)
            (omega (arith, p.hi))))

  -- On an image in which `parent` is a directory with the entries `es`, making a directory of an inode
  -- from 1 to 256 that is not the parent, under a name of at most 55 bytes, is undefined only where all
  -- blocks below 4096 but one at most are taken. Else the inode becomes a directory with the entries "." of itself
  -- and ".." of the parent; and the parent has the new entry behind the others, or, where it has 80
  -- entries, is as it was, and the failure is reported.
  pub mkdir_in-MkdirResult :
      1 ≤ ino
      → IsDirectory parent pdin es s
      → MkdirResult name parent pdin es ino s (mkdir_in name parent (ok ino) s)
  unfolding mkdir_in ts_now is_dir
  mkdir_in-MkdirResult lo p =
      let i = new_inode s in
      let v = new_inode-IsInode s in
      let m : IsMounted (asked s) =
        IsMounted-same p.blocks.mounted refl refl refl refl refl refl refl in
      let c = empty_lem ino lo small i v (asked s) m refl refl refl in
      rw (write_inode_run ino lo small i (asked s) m, get, ◌>>=◌, ◌>>◌, ignore)
        (dot_linked _ (λ j. ap (λ bm. bit_at bm j) same) c
          (stored-IsDirectory p ino lo small i v ne) refl
          (dir_add-AddResult c (codes ".") ft_dir ino (omega arith) (omega arith) (omega arith)
            (omega arith)))
    where
      same : bitmap_of (stored_inode ino lo small (new_inode s) (asked s)) ≡ bitmap_of s
      same = ground (arith, p.blocks.mounted.block_bitmap)
