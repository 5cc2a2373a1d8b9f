-- ===== src/Ext2/Dir/Tests.antt =====
-- project3/src/dir.c: the theorems on directories, at an empty one and at one with an entry.
use xjtu_os_project.Prelude.{ℕ, List, ◌≡◌, refl, [], ◌∷◌, Option, some, arith}
use xjtu_os_project.Ext2.State.{Inode, Fs, Result, ok}
use xjtu_os_project.Ext2.Bitmap.{bit_at}
use xjtu_os_project.Ext2.Inode.{zero_inode}
use xjtu_os_project.Ext2.Inode.Bytes.{IsInode}
use xjtu_os_project.Ext2.Inode.Table.{stored_inode}
use xjtu_os_project.Ext2.Dir.{is_dir, dir_add, dir_lookup, dir_remove}
use xjtu_os_project.Ext2.Dir.Names.{added}
use xjtu_os_project.Ext2.Dir.Slots.{IsDirectory, slot_named}
use xjtu_os_project.Ext2.Dir.Empty.{empty_lem}
use xjtu_os_project.Ext2.Dir.Lookup.{ino_at, dir_lookup_lem}
use xjtu_os_project.Ext2.Dir.Removing.{RemoveResult, dir_remove-RemoveResult}
use xjtu_os_project.Ext2.Dir.Appending.{AddResult, bitmap_full, no_space, adds}
use xjtu_os_project.Ext2.Dir.Add.{dir_add-AddResult}
use xjtu_os_project.Ext2.Dir.Roundtrip.{AfterAdd, dir_lookup-dir_add}
use xjtu_os_project.Ext2.Tests.{blank, blank-IsMounted, zero_inode-IsInode}

abbrev long : List ℕ
long = b'a' ∷ b'b' ∷ []

abbrev short : List ℕ
short = b'a' ∷ []

abbrev pub empty_inode : Inode
empty_inode = record zero_inode { mode = 0o040755 }

pub empty_inode-IsInode : IsInode empty_inode
empty_inode-IsInode = record {
  mode = omega arith;
  uid = omega arith;
  size = omega arith;
  atime = omega arith;
  mtime = omega arith;
  ctime = omega arith;
  gid = omega arith;
  links = omega arith;
  blocks = omega arith;
  direct = zero_inode-IsInode.direct;
  direct_length = refl;
  indirect1 = omega arith;
  reserve = zero_inode-IsInode.reserve;
  reserve_length = refl;
}

-- An image with an empty directory in inode 2.
abbrev image : Fs
image = stored_inode 2 (omega arith) (omega arith) empty_inode blank

image-IsDirectory : IsDirectory 2 empty_inode [] image
unfolding is_dir
image-IsDirectory =
    empty_lem 2 (omega arith) (omega arith) empty_inode empty_inode-IsInode blank blank-IsMounted
      refl refl refl

dir_add-AddResult_example :
    AddResult 2 empty_inode [] (added short 1 12) image (dir_add 2 short 1 12 image)
dir_add-AddResult_example =
    dir_add-AddResult image-IsDirectory short 1 12 (omega arith) (omega arith) (omega arith)
      (omega arith)

-- The directory with one entry.
one_entry :
    (r : Option (Result (Unit {0}) × Fs))
    → AddResult 2 empty_inode [] (added short 1 12) image r
    → (t : Fs) × (din : Inode) × (r ≡ some (ok tt, t)) × IsDirectory 2 din (added short 1 12 ∷ []) t
unfolding bit_at
one_entry _ (bitmap_full at f) = absurd (f 69 (omega arith) (omega arith) refl)
one_entry _ (no_space e) = absurd (omega arith)
one_entry _ (adds {din' = din} {t} d k) = (t, din, refl, d)

filled :
    (t : Fs) × (din : Inode) × (dir_add 2 short 1 12 image ≡ some (ok tt, t))
    × IsDirectory 2 din (added short 1 12 ∷ []) t
filled = one_entry _ (
    dir_add-AddResult image-IsDirectory short 1 12 (omega arith) (omega arith) (omega arith)
      (omega arith))

dir_lookup_lem_example :
    dir_lookup 2 short filled.0
    ≡ some (ino_at (added short 1 12 ∷ []) (slot_named short (added short 1 12 ∷ [])), filled.0)
dir_lookup_lem_example = dir_lookup_lem filled.3 short

dir_remove-RemoveResult_example :
    RemoveResult 2 filled.1
      (added short 1 12 ∷ [])
      filled.0
      (slot_named short (added short 1 12 ∷ []))
      (dir_remove 2 short filled.0)
dir_remove-RemoveResult_example = dir_remove-RemoveResult filled.3 short

dir_lookup-dir_add_example :
    (r r' : Result ℕ) × (dir_lookup 2 long image ≡ some (r, image))
    × (dir_lookup 2 long filled.0 ≡ some (r', filled.0))
    × AfterAdd short long 12 r r'
dir_lookup-dir_add_example =
    dir_lookup-dir_add short long 1 12 (omega arith, tt) (omega arith, (omega arith, tt))
      (omega arith) (omega arith) (omega arith) (omega arith) image-IsDirectory (omega arith)
      filled.2
