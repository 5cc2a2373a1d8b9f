-- ===== src/Ext2/Format/Root.antt =====
-- project3/src/fs.c: the root directory that `fs_format` makes.
use xjtu_os_project.Prelude.{◌+◌, ◌%◌, ◌^◌, ◌≡◌, refl, ap, ◌∙◌, [], ◌∷◌, Option, some, arith, false}
use xjtu_os_project.Ext2.Bytes.Laws.{replicate-IsBytes}
use xjtu_os_project.Ext2.State.{
  Inode, Dirent, Fs, Result, fs_err, ok, M, ◌>>=◌, ◌>>◌, ignore, or_else, ts_now,
}
use xjtu_os_project.Ext2.Dev.{wb_plus, dev_open}
use xjtu_os_project.Ext2.Dev.Laws.{IsMounted, IsMounted-same}
use xjtu_os_project.Ext2.Bitmap.{bit_at}
use xjtu_os_project.Ext2.Inode.{zero_inode}
use xjtu_os_project.Ext2.Inode.Bytes.{IsInode}
use xjtu_os_project.Ext2.Inode.Table.{stored_inode, write_inode_run}
use xjtu_os_project.Ext2.Map.Fresh.{bitmap_of}
use xjtu_os_project.Ext2.Text.{codes}
use xjtu_os_project.Ext2.Dir.{is_dir, dir_add}
use xjtu_os_project.Ext2.Dir.Names.{added}
use xjtu_os_project.Ext2.Dir.Slots.{IsDirectory}
use xjtu_os_project.Ext2.Dir.Empty.{empty_lem}
use xjtu_os_project.Ext2.Dir.Appending.{AddResult, bitmap_full, no_space, adds}
use xjtu_os_project.Ext2.Dir.Add.{dir_add-AddResult}
use xjtu_os_project.Ext2.Format.{mode_dir, ft_dir, lay_out, make_root}
use xjtu_os_project.Ext2.Format.Layout.{HasTails}
use xjtu_os_project.Ext2.Format.Empty.{IsEmpty, lay_out-IsEmpty}

-- The inode of the root, with the times of the next three calls.
abbrev root_inode : Fs → Inode
root_inode s = record zero_inode {
  mode = mode_dir;
  links = 2;
  ctime = s.clock s.calls % 2 ^ 32;
  mtime = s.clock (s.calls + 1) % 2 ^ 32;
  atime = s.clock (s.calls + 1 + 1) % 2 ^ 32;
}

root_inode-IsInode : (s : Fs) → IsInode (root_inode s)
root_inode-IsInode s = record {
  mode = omega arith;
  uid = omega arith;
  size = omega arith;
  atime = omega arith;
  mtime = omega arith;
  ctime = omega arith;
  gid = omega arith;
  links = omega arith;
  blocks = omega arith;
  direct = omega arith;
  direct_length = refl;
  indirect1 = omega arith;
  reserve = replicate-IsBytes 56;
  reserve_length = refl;
}

abbrev pub dot : Dirent
dot = added (codes ".") ft_dir 1

abbrev pub dot_dot : Dirent
dot_dot = added (codes "..") ft_dir 1

-- The two calls of `dir_add`, in an empty directory on an image with a free block.
add_dots :
    (din : Inode) (s : Fs)
    → IsDirectory 1 din [] s
    → bit_at (bitmap_of s) 69 ≡ 0
    → (t u : Fs) × (din' : Inode) × (dir_add 1 (codes ".") ft_dir 1 s ≡ some (ok tt, t))
      × (dir_add 1 (codes "..") ft_dir 1 t ≡ some (ok tt, u))
      × IsDirectory 1 din' (dot ∷ dot_dot ∷ []) u
add_dots din s d free =
    let (t, din1, run1, d1) = first _ (
      dir_add-AddResult d (codes ".") ft_dir 1 (omega arith) (omega arith) (omega arith)
        (omega arith)) in
    let (u, din2, run2, d2) = second din1 t _ (
      dir_add-AddResult d1 (codes "..") ft_dir 1 (omega arith) (omega arith) (omega arith)
        (omega arith)) in
    (t, u, din2, run1, run2, d2)
  where
    first :
        (r : Option (Result (Unit {0}) × Fs))
        → AddResult 1 din [] dot s r
        → (t : Fs) × (din' : Inode) × (r ≡ some (ok tt, t)) × IsDirectory 1 din' (dot ∷ []) t
    first _ (bitmap_full at f) = absurd (f 69 (omega arith) (omega arith) free)
    first _ (no_space e) = absurd (omega arith)
    first _ (adds {din' = i} {t} d' k) = (t, i, refl, d')

    second :
        (din : Inode) (t : Fs) (r : Option (Result (Unit {0}) × Fs))
        → AddResult 1 din (dot ∷ []) dot_dot t r
        → (u : Fs) × (din' : Inode) × (r ≡ some (ok tt, u))
          × IsDirectory 1 din' (dot ∷ dot_dot ∷ []) u
    second din t _ (bitmap_full at f) = absurd (omega arith)
    second din t _ (no_space e) = absurd (omega arith)
    second din t _ (adds {din' = i} {t = u} d' k) = (u, i, refl, d')

-- The state in which the inode of the root is written.
abbrev asked : Fs → Fs
asked s = record s { calls = s.calls + 1 + 1 + 1 }

still_free :
    (t : Fs)
    → IsEmpty t
    → IsMounted (asked t)
    → bit_at (bitmap_of (stored_inode 1 (omega arith) (omega arith) (root_inode t) (asked t))) 69
      ≡ 0
still_free t e m = ap (λ bm. bit_at bm 69) same ∙ e.block_bits 69
  where
    same :
        bitmap_of (stored_inode 1 (omega arith) (omega arith) (root_inode t) (asked t))
        ≡ t.disk.content 3
    same = ground (arith, e.mounted.block_bitmap)

make_root_lem :
    (t : Fs)
    → IsEmpty t
    → (u : Fs) × (din : Inode) × (make_root t ≡ some (ok tt, u))
      × IsDirectory 1 din (dot ∷ dot_dot ∷ []) u
unfolding make_root ts_now is_dir
make_root_lem t e =
    let m = IsMounted-same {t = asked t} e.mounted refl refl refl refl refl refl refl in
    let d =
      empty_lem 1 (omega arith) (omega arith) (root_inode t) (root_inode-IsInode t) (asked t) m refl
        refl refl in
    let (v, u, din, run1, run2, d2) = add_dots (root_inode t) _ d (still_free t e m) in
    (
      u,
      din,
      rw
          (
            write_inode_run 1 (omega arith) (omega arith) (root_inode t) (asked t) m,
            ignore,
            ◌>>=◌,
            ◌>>◌,
            run1,
            run2,
          )
          refl,
      d2,
    )

-- What is done after two steps that succeed.
after_both :
    (m k l : M (Unit {0})) (s t : Fs) → (m >> k) s ≡ some (ok tt, t) → (m >> (k >> l)) s ≡ l t
after_both m k l s t e = ground arith

-- On a closed image, with the bytes of a block behind `g_sb` and `g_gd` in memory, `fs_format` succeeds
-- up to the root directory: inode 1 is then a directory with the two entries "." and "..", both of
-- inode 1.
pub make_root-IsDirectory :
    (s : Fs)
    → s.g_dev ≡ false
    → HasTails s
    → (u : Fs) × (din : Inode) × ((do or_else (dev_open wb_plus) fs_err; lay_out; make_root) s
        ≡ some (ok tt, u))
      × IsDirectory 1 din (dot ∷ dot_dot ∷ []) u
make_root-IsDirectory s closed h =
    let (t, run, e) = lay_out-IsEmpty s closed h in
    let (u, din, run', d) = make_root_lem t e in
    (u, din, after_both (or_else (dev_open wb_plus) fs_err) lay_out make_root s t run ∙ run', d)
