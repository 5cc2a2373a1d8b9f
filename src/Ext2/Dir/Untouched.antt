-- ===== src/Ext2/Dir/Untouched.antt =====
-- project3: calls that leave every directory as it is, but the one that they are about.
use xjtu_os_project.Prelude.{ℕ, ◌+◌, ◌≤◌, ◌≡◌, ◌≢◌, refl, ap, ◌∙◌, List, [], arith}
use xjtu_os_project.Ext2.Bytes.{slice}
use xjtu_os_project.Ext2.State.{Inode, Dirent, Fs}
use xjtu_os_project.Ext2.Dev.Laws.{IsMounted, IsMounted-same}
use xjtu_os_project.Ext2.Bitmap.{bit_at, blk_data_start, max_inodes}
use xjtu_os_project.Ext2.Bitmap.Alloc.{IsFlipped}
use xjtu_os_project.Ext2.Inode.Bytes.{IsInode}
use xjtu_os_project.Ext2.Inode.Table.{
  table_blk, table_off, stored_inode, stored_inode-IsMounted, entry_kept,
}
use xjtu_os_project.Ext2.Map.Fresh.{bitmap_of}
use xjtu_os_project.Ext2.Dir.Keeping.{IsDirectory-kept}
use xjtu_os_project.Ext2.Dir.Slots.{IsDirectory}

-- The three times of a new inode.
abbrev pub asked : Fs → Fs
asked s = record s { calls = s.calls + 1 + 1 + 1 }

module _ {p : ℕ} {pdin : Inode} {es : List Dirent} {s : Fs} (d : IsDirectory p pdin es s) where
  -- `alloc_inode`
  pub flipped-IsDirectory :
      (k : ℕ) {t : Fs} → IsFlipped s.g_sb.inode_bitmap_blk k 0 1 s t → IsDirectory p pdin es t
  flipped-IsDirectory k {t} f =
      IsDirectory-kept d {dir = 0} {n = 0} {n' = 0} {direct = []} {direct' = []}
        (record {
          from = λ c h. absurd (omega arith);
          mounted = f.mounted;
          inodes = λ j lo hi ne. ap (slice (table_off j) 128) (
              f.others (table_blk j) (λ e. absurd (omega (arith, inode_blk)))
                (λ e. absurd (omega arith)) (λ e. absurd (omega arith)));
          data_blocks = λ b lo u apart.
              f.others b (λ e. absurd (omega (arith, inode_blk))) (λ e. absurd (omega arith))
                (λ e. absurd (omega arith));
          taken = λ b u. ap (λ bm. bit_at bm b) same ∙ u;
          one_bit = (0, λ j ne. ap (λ bm. bit_at bm j) same);
          no_bit = λ q j. ap (λ bm. bit_at bm j) same;
        })
        (λ e. absurd (omega (arith, d.lo))) (λ b c hb hc. absurd (omega arith))
    where
      inode_blk : s.g_sb.inode_bitmap_blk ≡ 4
      inode_blk = d.blocks.mounted.inode_bitmap

      same : bitmap_of t ≡ bitmap_of s
      same =
          ground
            (arith, f.others 3, inode_blk, d.blocks.mounted.block_bitmap, f.mounted.block_bitmap)

  -- `write_inode` of another inode, behind three calls of `ts_now`
  pub stored-IsDirectory :
      (ino : ℕ) (lo : 1 ≤ ino) (hi : ino ≤ max_inodes) (i : Inode)
      → IsInode i
      → p ≢ ino
      → IsDirectory p pdin es (stored_inode ino lo hi i (asked s))
  stored-IsDirectory ino lo hi i v ne =
      IsDirectory-kept d {dir = ino} {n = 0} {n' = 0} {direct = []} {direct' = []}
        (record {
          from = λ c h. absurd (omega arith);
          mounted = stored_inode-IsMounted ino lo hi i v (asked s) m;
          inodes = λ j lo' hi' other. entry_kept ino lo hi i v (asked s) m j lo' other;
          data_blocks = λ b l u apart. elsewhere b (omega arith);
          taken = λ b u. ap (λ bm. bit_at bm b) same ∙ u;
          one_bit = (0, λ j ne. ap (λ bm. bit_at bm j) same);
          no_bit = λ q j. ap (λ bm. bit_at bm j) same;
        })
        ne (λ b c hb hc. absurd (omega arith))
    where
      m : IsMounted (asked s)
      m = IsMounted-same d.blocks.mounted refl refl refl refl refl refl refl

      elsewhere :
          (b : ℕ)
          → blk_data_start ≤ b
          → (stored_inode ino lo hi i (asked s)).disk.content b ≡ s.disk.content b
      elsewhere b l = ground arith

      same : bitmap_of (stored_inode ino lo hi i (asked s)) ≡ bitmap_of s
      same = ground (arith, d.blocks.mounted.block_bitmap)
