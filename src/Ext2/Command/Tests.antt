-- ===== src/Ext2/Command/Tests.antt =====
-- project3/src/cli.c: runs of `chmod`, and its theorem at a small image.
use xjtu_os_project.Ext2.Command.Tree.{mkdir_below}
use xjtu_os_project.Ext2.Command.Mkdir.{MkdirBelow, mkdir_below-MkdirBelow}
use xjtu_os_project.Ext2.Bytes.{zero_block}
use xjtu_os_project.Ext2.Bytes.Laws.{replicate-IsBytes}
use xjtu_os_project.Ext2.Dev.Laws.{IsMounted, wrote, wrote-IsMounted}
use xjtu_os_project.Ext2.Bitmap.{bit_at, bit_set}
use xjtu_os_project.Ext2.Bitmap.Bits.{length-bit_set, bit_set-IsBytes}
use xjtu_os_project.Ext2.Inode.Table.{stored_inode}
use xjtu_os_project.Ext2.Dir.{is_dir}
use xjtu_os_project.Ext2.Dir.Slots.{IsDirectory}
use xjtu_os_project.Ext2.Dir.Empty.{empty_lem}
use xjtu_os_project.Ext2.Dir.Tests.{empty_inode, empty_inode-IsInode}
use xjtu_os_project.Prelude.{[], ◌∷◌, ◌≡◌, refl, arith, some}
use xjtu_os_project.Ext2.Bytes.{slice, words_at}
use xjtu_os_project.Ext2.State.{Fs, ok}
use xjtu_os_project.Ext2.Dev.{dev_read_block}
use xjtu_os_project.Ext2.Inode.{inode_pos, inode_of, zero_inode, read_inode}
use xjtu_os_project.Ext2.Text.{codes}
use xjtu_os_project.Ext2.Command.Output.{Output}
use xjtu_os_project.Ext2.Command.Chmod.{octal_value, scan_octal, chmod_at}
use xjtu_os_project.Ext2.Command.Rights.{ChmodResult, chmod_at-ChmodResult}
use xjtu_os_project.Ext2.Tests.{blank, blank-IsMounted, zero_inode-IsInode}

scan_octal_run : scan_octal (codes "644") ≡ some 420
unfolding scan_octal octal_value
scan_octal_run = refl

blank_read : read_inode 7 blank ≡ some (ok zero_inode, blank)
unfolding read_inode inode_pos dev_read_block inode_of slice words_at
blank_read = refl

chmod_at-ChmodResult_example :
    (out : Output) × (t : Fs) × (chmod_at (codes "644") (ok 7) blank ≡ some (ok out, t))
    × ChmodResult 7 420 zero_inode blank out t
chmod_at-ChmodResult_example =
    chmod_at-ChmodResult (codes "644") 7 420 zero_inode blank zero_inode-IsInode blank-IsMounted
      (omega arith) (omega arith) (omega arith) scan_octal_run blank_read

-- An image with an empty directory in inode 2, which is taken.
abbrev marked : Fs
marked = wrote 4 (bit_set zero_block 2) blank

marked-IsMounted : IsMounted marked
marked-IsMounted =
    wrote-IsMounted blank blank-IsMounted 4 (bit_set zero_block 2) (omega arith)
      (length-bit_set zero_block 2) (bit_set-IsBytes zero_block 2 (replicate-IsBytes 512))

abbrev image : Fs
image = stored_inode 2 (omega arith) (omega arith) empty_inode marked

image-IsDirectory : IsDirectory 2 empty_inode [] image
unfolding is_dir
image-IsDirectory =
    empty_lem 2 (omega arith) (omega arith) empty_inode empty_inode-IsInode marked marked-IsMounted
      refl refl refl

two_taken : bit_at (bit_set zero_block 2) 2 ≡ 1
unfolding bit_at bit_set
two_taken = refl

mkdir_below-MkdirBelow_example :
    MkdirBelow (b'a' ∷ []) 2 empty_inode [] image (mkdir_below (b'a' ∷ []) (ok 2) image)
mkdir_below-MkdirBelow_example =
    mkdir_below-MkdirBelow (b'a' ∷ []) (omega arith) (omega arith) image-IsDirectory two_taken
