-- ===== src/Ext2/Format/Empty.antt =====
-- project3/src/fs.c: what the image holds when `fs_format` has laid it out.
use xjtu_os_project.Prelude.{
  ℕ, ◌<◌, ◌≡◌, refl, ap, ◌∙◌, some, arith, true, false, if◌then◌else◌, ltb, ◌==◌,
}
use xjtu_os_project.Ext2.Bytes.{zero_block}
use xjtu_os_project.Ext2.State.{Fs, fs_err, ok, ◌>>=◌, ◌>>◌, ignore, or_else}
use xjtu_os_project.Ext2.Dev.{wb_plus, total_blocks, fopen, dev_open}
use xjtu_os_project.Ext2.Dev.Laws.{IsMounted, super_block, gdesc_block}
use xjtu_os_project.Ext2.Bitmap.{bit_at, bit_set, blk_data_start}
use xjtu_os_project.Ext2.Bitmap.Bits.{bit_at-bit_set}
use xjtu_os_project.Ext2.Format.{fs_magic, clear_blocks, less_blocks, less_inodes, reserve, lay_out}
use xjtu_os_project.Ext2.Format.Marks.{IsZeros, clear_blocks_lem, IsMarked, reserve_blocks_lem}
use xjtu_os_project.Ext2.Format.Layout.{
  headers, write_both_lem, headers-IsMounted, bit_at-zero_block, fresh, init_super_lem, HasTails,
  fresh-IsMounted, zero_block-IsBytes, inode_marked, bmap_set-inode_marked, inode_marked-IsMounted,
  less_blocks-IsMounted, less_inodes-IsMounted,
}

-- The state behind `reserve`, where `t` is that behind its loop.
abbrev reserved : Fs → Fs
reserved t = headers (less_inodes 1 (inode_marked 1 (headers (less_blocks blk_data_start t))))

module _ (t : Fs) (m : IsMounted t) where
  blocks-IsMounted : IsMounted (headers (less_blocks blk_data_start t))
  blocks-IsMounted =
      headers-IsMounted (less_blocks blk_data_start t) (less_blocks-IsMounted blk_data_start t m)

  reserved-IsMounted : IsMounted (reserved t)
  reserved-IsMounted =
      let u = headers (less_blocks blk_data_start t) in
      headers-IsMounted (less_inodes 1 (inode_marked 1 u))
        (less_inodes-IsMounted 1 (inode_marked 1 u) (inode_marked-IsMounted 1 u blocks-IsMounted))

reserve_lem :
    (s : Fs) → IsMounted s → (t : Fs) × (reserve s ≡ some (ok tt, reserved t)) × IsMarked 0 69 s t
unfolding reserve
reserve_lem s m =
    let (t, run, w) = reserve_blocks_lem 69 0 69 s m refl (omega arith) in
    let u = headers (less_blocks blk_data_start t) in
    (
      t,
      rw (
        run,
        ◌>>◌,
        ◌>>=◌,
        write_both_lem (less_blocks blk_data_start t) w.mounted.opened,
        bmap_set-inode_marked 1 u (blocks-IsMounted t w.mounted) (omega arith),
        ignore,
        write_both_lem (less_inodes 1 (inode_marked 1 u)) w.mounted.opened,
      ),
      w,
    )

-- An empty file system: in the bitmaps the 69 blocks in front of the data blocks and the inode 1 of the
-- root are taken, the counters agree with that, the superblock and the group descriptor are on the
-- image as they are in memory, and all else is zero.
pub record IsEmpty (t : Fs) : Type 0 where
  pub mounted : IsMounted t
  pub magic : t.g_sb.magic ≡ fs_magic
  pub block_bits : (j : ℕ) → bit_at (t.disk.content 3) j ≡ (if ltb j 69 then 1 else 0)
  pub inode_bits : (j : ℕ) → bit_at (t.disk.content 4) j ≡ (if 1 == j then 1 else 0)
  pub free_blocks : (t.g_sb.free_blocks ≡ 4542) × (t.g_gd.free_blocks_count ≡ 4542)
  pub free_inodes : (t.g_sb.free_inodes ≡ 255) × (t.g_gd.free_inodes_count ≡ 255)
  pub super : t.disk.content 1 ≡ super_block t
  pub gdesc : t.disk.content 2 ≡ gdesc_block t
  pub zeros : (b : ℕ) → 4 < b → t.disk.content b ≡ zero_block

reserved-IsEmpty :
    (s z t : Fs)
    → IsZeros total_blocks s z
    → IsMarked 0 69 (headers (fresh z)) t
    → IsEmpty (reserved t)
reserved-IsEmpty s z t v w = record {
  mounted = reserved-IsMounted t w.mounted;
  magic = ap (λ sb. sb.magic) w.sb;
  block_bits = λ j. ground (arith, w.bits j, zero_bit j);
  inode_bits = λ j. one_bit j;
  free_blocks = (omega (arith, sb_blocks), omega (arith, gd_blocks));
  free_inodes = (omega (arith, sb_inodes), omega (arith, gd_inodes));
  super = refl;
  gdesc = refl;
  zeros = λ b h. ground (arith, w.others b, v.zeros b, h);
}
  where
    sb_blocks : t.g_sb.free_blocks ≡ 4611
    sb_blocks = ap (λ sb. sb.free_blocks) w.sb

    sb_inodes : t.g_sb.free_inodes ≡ 256
    sb_inodes = ap (λ sb. sb.free_inodes) w.sb

    gd_blocks : t.g_gd.free_blocks_count ≡ 4611
    gd_blocks = ap (λ gd. gd.free_blocks_count) w.gd

    gd_inodes : t.g_gd.free_inodes_count ≡ 256
    gd_inodes = ap (λ gd. gd.free_inodes_count) w.gd

    zero_bit : (j : ℕ) → bit_at ((headers (fresh z)).disk.content 3) j ≡ 0
    zero_bit j = ap (λ bm. bit_at bm j) (v.zeros 3) ∙ bit_at-zero_block j

    four : t.disk.content 4 ≡ zero_block
    four = w.others 4 (omega arith) ∙ v.zeros 4

    one_bit : (j : ℕ) → bit_at (bit_set (t.disk.content 4) 1) j ≡ (if 1 == j then 1 else 0)
    one_bit j =
        ap (λ bm. bit_at (bit_set bm 1) j) four
        ∙ bit_at-bit_set zero_block 1 j zero_block-IsBytes (omega arith)
        ∙ ap (λ x. if 1 == j then 1 else x) (bit_at-zero_block j)

-- The image that has been opened as `fs_format` does.
abbrev opened : Fs → Fs
opened s = record s { disk = fopen wb_plus s.disk; g_dev = true }

dev_open-opened : (s : Fs) → s.g_dev ≡ false → dev_open wb_plus s ≡ some (ok tt, opened s)
unfolding dev_open
dev_open-opened s h = rw h refl

opened-IsZeros : (s : Fs) → IsZeros 0 s (opened s)
opened-IsZeros s = record {
  opened = refl;
  blocks = refl;
  zeros = λ b. refl;
  sb_tail = refl;
  gd_tail = refl;
}

lay_out_lem :
    (s z t : Fs)
    → clear_blocks total_blocks 0 s ≡ some (ok tt, z)
    → z.g_dev ≡ true
    → reserve (headers (fresh z)) ≡ some (ok tt, reserved t)
    → lay_out s ≡ some (ok tt, reserved t)
unfolding lay_out
lay_out_lem s z t h k r = rw (h, ◌>>◌, ◌>>=◌, init_super_lem z k) r

-- On a closed image, with the bytes of a block behind `g_sb` and `g_gd` in memory, opening the image as
-- `fs_format` does and laying it out succeeds, and gives an image as `IsEmpty` says: in shape, with the
-- 69 blocks in front of the data blocks and inode 1 taken, counters that agree, and the rest zero.
pub lay_out-IsEmpty :
    (s : Fs)
    → s.g_dev ≡ false
    → HasTails s
    → (t : Fs) × ((do or_else (dev_open wb_plus) fs_err; lay_out) s ≡ some (ok tt, t)) × IsEmpty t
lay_out-IsEmpty s closed h =
    let (z, run1, v) =
      clear_blocks_lem total_blocks 0 total_blocks s (opened s) (opened-IsZeros s) refl
        (omega arith) in
    let (t, run2, w) =
      reserve_lem (headers (fresh z)) (headers-IsMounted (fresh z) (fresh-IsMounted s z h v)) in
    (
      reserved t,
      rw (dev_open-opened s closed, or_else, ◌>>◌, ◌>>=◌)
          (lay_out_lem (opened s) z t run1 v.opened run2),
      reserved-IsEmpty s z t v w,
    )
