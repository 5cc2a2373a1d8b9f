-- ===== src/Ext2/Format/Layout.antt =====
-- project3/src/fs.c: the image that `fs_format` lays out, in front of the directories; and what a mount
-- reads of the superblock and the group descriptor.
use xjtu_os_project.Prelude.{
  ℕ, zero, suc, ◌+◌, ◌/◌, ◌%◌, ◌^◌, ◌<◌, ◌≡◌, refl, ap, ◌∙◌, List, some, arith, true, false, length,
  replicate, get_or,
}
use xjtu_os_project.Ext2.Bytes.{IsBytes, zero_block}
use xjtu_os_project.Ext2.Bytes.Laws.{replicate-IsBytes}
use xjtu_os_project.Ext2.State.{Fs, ok, ◌>>=◌, ◌>>◌, ignore, ts_now}
use xjtu_os_project.Ext2.Dev.{
  total_blocks, blk_super, blk_gdesc, dev_read_block, superblock_of, group_desc_of,
}
use xjtu_os_project.Ext2.Dev.Laws.{
  IsMounted, wrote, super_block, gdesc_block, dev_read_block_lem, write_super_lem, write_gdesc_lem,
  wrote-IsMounted, super-IsMounted, gdesc-IsMounted, IsMounted-same,
}
use xjtu_os_project.Ext2.Dev.Headers.{IsSuperblock, IsGroupDesc, superblock_back, group_desc_back}
use xjtu_os_project.Ext2.Bitmap.{bit_at, bit_set, bmap_set}
use xjtu_os_project.Ext2.Bitmap.Bits.{length-bit_set, bit_set-IsBytes}
use xjtu_os_project.Ext2.Bitmap.Store.{bmap_set_lem}
use xjtu_os_project.Ext2.Format.{
  new_superblock, new_group_desc, less_blocks, less_inodes, write_both, init_super,
}
use xjtu_os_project.Ext2.Format.Marks.{IsZeros}

-- The state when the superblock and the group descriptor have been written.
abbrev pub headers : Fs → Fs
headers s = wrote 2 (gdesc_block s) (wrote 1 (super_block s) s)

pub write_both_lem : (s : Fs) → s.g_dev ≡ true → write_both s ≡ some (ok tt, headers s)
unfolding write_both
write_both_lem s m =
    rw (write_super_lem s m, ignore, ◌>>◌, ◌>>=◌, write_gdesc_lem (wrote 1 (super_block s) s) m)

pub headers-IsMounted : (s : Fs) → IsMounted s → IsMounted (headers s)
headers-IsMounted s m = gdesc-IsMounted (wrote 1 (super_block s) s) (super-IsMounted s m)

-- When the superblock and the group descriptor of an image in shape have been written, their blocks can
-- be read, and a mount finds in them the fields that were written, if these are in the range of their
-- C types.
pub mount_reads :
    (s : Fs)
    → IsMounted s
    → IsSuperblock s.g_sb
    → IsGroupDesc s.g_gd
    → (t : Fs) × (sb gd : List ℕ) × (write_both s ≡ some (ok tt, t))
      × (dev_read_block blk_super t ≡ some (ok sb, t))
      × (dev_read_block blk_gdesc t ≡ some (ok gd, t))
      × (superblock_of sb ≡ s.g_sb)
      × (group_desc_of gd ≡ s.g_gd)
mount_reads s m v w = (
  headers s,
  super_block s,
  gdesc_block s,
  write_both_lem s m.opened,
  dev_read_block_lem 1 (headers s) (headers-IsMounted s m) (omega arith),
  dev_read_block_lem 2 (headers s) (headers-IsMounted s m) (omega arith),
  superblock_back s.g_sb s.sb_tail v,
  group_desc_back s.g_gd s.gd_tail w,
)

get_or-zeros : (n i : ℕ) → get_or {A = ℕ} (replicate n 0) i 0 ≡ 0
get_or-zeros zero i = refl
get_or-zeros (suc n) zero = refl
get_or-zeros (suc n) (suc i) = get_or-zeros n i

pub bit_at-zero_block : (j : ℕ) → bit_at zero_block j ≡ 0
unfolding bit_at
bit_at-zero_block j = rw (get_or-zeros 512 (j / 8)) (omega arith)

-- The state in which `init_super` writes.
abbrev pub fresh : Fs → Fs
fresh s = record s {
  calls = s.calls + 1 + 1;
  g_sb = new_superblock (s.clock s.calls % 2 ^ 32) (s.clock (s.calls + 1) % 2 ^ 32);
  g_gd = new_group_desc;
}

pub init_super_lem : (s : Fs) → s.g_dev ≡ true → init_super s ≡ some (ok tt, headers (fresh s))
unfolding init_super ts_now
init_super_lem s h = rw (write_both_lem (fresh s) h, ◌>>◌, ◌>>=◌) refl

-- Memory behind `g_sb` and `g_gd` is as in `IsMounted`.
pub record HasTails (s : Fs) : Type 0 where
  pub sb_tail_sized : length s.sb_tail ≡ 448
  pub sb_tail_bytes : IsBytes s.sb_tail
  pub gd_tail_sized : length s.gd_tail ≡ 492
  pub gd_tail_bytes : IsBytes s.gd_tail

pub zero_block-IsBytes : IsBytes zero_block
zero_block-IsBytes = replicate-IsBytes 512

pub fresh-IsMounted : (s t : Fs) → HasTails s → IsZeros total_blocks s t → IsMounted (fresh t)
fresh-IsMounted s t h z = record {
  opened = z.opened;
  full = z.blocks;
  sized = λ b. rw (z.zeros b) refl;
  bytes = λ b. rw (z.zeros b) zero_block-IsBytes;
  block_bitmap = refl;
  inode_bitmap = refl;
  inode_table = refl;
  sb_tail_sized = rw z.sb_tail h.sb_tail_sized;
  sb_tail_bytes = rw z.sb_tail h.sb_tail_bytes;
  gd_tail_sized = rw z.gd_tail h.gd_tail_sized;
  gd_tail_bytes = rw z.gd_tail h.gd_tail_bytes;
}

-- The state when the inode `i` has been marked.
abbrev pub inode_marked : ℕ → Fs → Fs
inode_marked i s = wrote 4 (bit_set (s.disk.content 4) i) s

pub bmap_set-inode_marked :
    (i : ℕ) (s : Fs)
    → IsMounted s
    → i < 4096
    → bmap_set i false true s ≡ some (ok tt, inode_marked i s)
bmap_set-inode_marked i s m h =
    bmap_set_lem false i true s m (omega (arith, m.inode_bitmap)) h
    ∙ ap (λ blk. some (ok tt, wrote blk (bit_set (s.disk.content blk) i) s)) m.inode_bitmap

pub inode_marked-IsMounted : (i : ℕ) (s : Fs) → IsMounted s → IsMounted (inode_marked i s)
inode_marked-IsMounted i s m =
    wrote-IsMounted s m 4 (bit_set (s.disk.content 4) i) (omega arith)
      (length-bit_set (s.disk.content 4) i ∙ m.sized 4)
      (bit_set-IsBytes (s.disk.content 4) i (m.bytes 4))

pub less_blocks-IsMounted : (k : ℕ) (s : Fs) → IsMounted s → IsMounted (less_blocks k s)
less_blocks-IsMounted k s m = IsMounted-same m refl refl refl refl refl refl refl

pub less_inodes-IsMounted : (k : ℕ) (s : Fs) → IsMounted s → IsMounted (less_inodes k s)
less_inodes-IsMounted k s m = IsMounted-same m refl refl refl refl refl refl refl
