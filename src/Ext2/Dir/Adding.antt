-- ===== src/Ext2/Dir/Adding.antt =====
-- project3/src/dir.c: `dir_add` puts an entry behind the others.
use mathlib.Core.Path.{subst}
use xjtu_os_project.Prelude.{
  ◌%◌, zero, suc, ℕ, ◌+◌, ◌*◌, ◌%◌, ◌^◌, ◌<◌, ◌≤◌, ◌≡◌, ◌≢◌, inl, inr, refl, ap, sym, ◌∙◌, List, [],
  ◌∷◌, ◌++◌, true, some, Bool-cases, ◌==◌, arith, length, get_or, length-append,
}
use xjtu_os_project.Ext2.Bytes.{IsBytes}
use xjtu_os_project.Ext2.State.{Inode, Dirent, Fs, ok, ◌>>=◌, ◌>>◌, or_else, ts_now}
use xjtu_os_project.Ext2.Dev.Laws.{dev_write_block_lem}
use xjtu_os_project.Ext2.Bitmap.{blk_data_start, max_inodes}
use xjtu_os_project.Ext2.Inode.Bytes.{IsInode}
use xjtu_os_project.Ext2.Dir.{entry_block, dirent_size, dirent_bytes, dirent_of, is_dir, put_entry}
use xjtu_os_project.Ext2.Dir.Entries.{IsDirent, dirent_of-dirent_bytes}
use xjtu_os_project.Ext2.Bytes.{slice}
use xjtu_os_project.Ext2.Bitmap.{bit_at}
use xjtu_os_project.Ext2.Inode.Table.{table_blk, table_off}
use xjtu_os_project.Ext2.Map.Fresh.{bitmap_of}
use xjtu_os_project.Ext2.Dir.Keeping.{IsSince, IsFrom, IsKept}
use xjtu_os_project.Ext2.Dir.Blocks.{
  with_slot_elsewhere, with_inode_elsewhere, with_inode_entry, block_no, slot_block, slot, IsBlocks,
  first_hi, with_slot, with_slot-IsBlocks, slot_written, slot_kept, with_inode, with_inode-IsBlocks,
  slot-with_inode, with_inode_reads, with_inode_run,
}
use xjtu_os_project.Ext2.Dir.Slots.{unused, IsDirectory, entry_at}

-- The inode `din` has a block for one more entry.
pub record IsReady (dir : ℕ) (din : Inode) (es : List Dirent) (s : Fs) : Type 0 where
  pub blocks : IsBlocks din.direct (length es + 1) s
  pub lo : 1 ≤ dir
  pub hi : dir ≤ max_inodes
  pub inode : IsInode din
  pub is_directory : is_dir din.mode ≡ true
  pub size : din.size ≡ dirent_size * length es
  pub no_more : (b : ℕ) → length es + 1 ≤ b * 8 → get_or din.direct b 0 ≡ 0
  pub entries : (k : ℕ) → k < length es → entry_at din s k ≡ get_or es k unused

-- The inode with the size of one more entry, at the time of the next call.
abbrev pub enlarged : Inode → Fs → Inode
enlarged i s = record i { size = (i.size + dirent_size) % 2 ^ 32; mtime = s.clock s.calls % 2 ^ 32 }

enlarged-IsInode : (i : Inode) (s : Fs) → IsInode i → IsInode (enlarged i s)
enlarged-IsInode i s v = record {
  mode = v.mode;
  uid = v.uid;
  size = omega arith;
  atime = v.atime;
  mtime = omega arith;
  ctime = v.ctime;
  gid = v.gid;
  links = v.links;
  blocks = v.blocks;
  direct = v.direct;
  direct_length = v.direct_length;
  indirect1 = v.indirect1;
  reserve = v.reserve;
  reserve_length = v.reserve_length;
}

pub get_or_front :
    (es : List Dirent) (x : Dirent) (j : ℕ)
    → j < length es
    → get_or (es ++ x ∷ []) j unused ≡ get_or es j unused
get_or_front [] x j h = absurd (omega arith)
get_or_front (e ∷ es) x zero h = refl
get_or_front (e ∷ es) x (suc j) h = get_or_front es x j (omega arith)

pub get_or_last : (es : List Dirent) (x : Dirent) → get_or (es ++ x ∷ []) (length es) unused ≡ x
get_or_last [] x = refl
get_or_last (e ∷ es) x = get_or_last es x

module _ {dir : ℕ} {din : Inode} {es : List Dirent} {s : Fs} (d : IsReady dir din es s)
    (de : Dirent) (v : IsDirent de) (len : length (dirent_bytes de) ≡ 64)
    (bs : IsBytes (dirent_bytes de)) where
  here : length es < length es + 1
  here = omega arith

  put : Fs
  put = with_slot d.blocks (length es) here (dirent_bytes de) len bs

  put-IsBlocks : IsBlocks din.direct (length es + 1) put
  unfolding put
  put-IsBlocks = with_slot-IsBlocks d.blocks (length es) here (dirent_bytes de) len bs

  added_to : Fs
  added_to = with_inode put-IsBlocks dir d.lo d.hi (enlarged din s) (enlarged-IsInode din s d.inode)

  slot-put :
      (j : ℕ)
      → j < length es + 1
      → dirent_of (slot din.direct put j) ≡ get_or (es ++ de ∷ []) j unused
  unfolding put
  slot-put j h = elim (Bool-cases (j == length es)) [
    | inl same ↦
        let e : j ≡ length es = ground arith in
        ap (λ i. dirent_of (slot din.direct put i)) e
        ∙ (ap dirent_of (slot_written d.blocks (length es) here (dirent_bytes de) len bs)
            ∙ (dirent_of-dirent_bytes de v
                ∙ sym (ap (λ i. get_or (es ++ de ∷ []) i unused) e ∙ get_or_last es de)))
    | inr other ↦
        let ne : j ≢ length es = ground arith in
        ap dirent_of (slot_kept d.blocks (length es) here (dirent_bytes de) len bs j h ne)
        ∙ (d.entries j (omega arith) ∙ sym (get_or_front es de j (omega arith)))
  ]

  one_more : length (es ++ de ∷ []) ≡ length es + 1
  one_more = length-append es (de ∷ [])

  added_to-IsDirectory : IsDirectory dir (enlarged din s) (es ++ de ∷ []) added_to
  unfolding added_to
  added_to-IsDirectory = record {
    blocks =
        subst (λ n. IsBlocks din.direct n added_to) (sym one_more)
          (with_inode-IsBlocks put-IsBlocks dir d.lo d.hi (enlarged din s)
            (enlarged-IsInode din s d.inode));
    lo = d.lo;
    hi = d.hi;
    inode = enlarged-IsInode din s d.inode;
    reads =
        with_inode_reads put-IsBlocks dir d.lo d.hi (enlarged din s)
          (enlarged-IsInode din s d.inode);
    is_directory = d.is_directory;
    size = omega (arith, d.size, d.blocks.room, one_more);
    no_more = λ b l. d.no_more b (omega (arith, one_more));
    entries = λ j l.
        ap dirent_of (
          slot-with_inode put-IsBlocks dir d.lo d.hi (enlarged din s)
            (enlarged-IsInode din s d.inode) j (omega (arith, one_more)))
        ∙ slot-put j (omega (arith, one_more));
  }

  put_entry_run :
      put_entry dir (length es) de (din, slot_block din.direct s (length es)) s
      ≡ some (ok tt, added_to)
  unfolding put_entry added_to put ts_now
  put_entry_run =
      rw
        (
          dev_write_block_lem _ (block_no din.direct (length es)) s d.blocks.mounted.opened
              (omega (arith, first_hi d.blocks (length es) here (dirent_bytes de) len bs)),
          or_else,
          ◌>>=◌,
          ◌>>◌,
          with_inode_run put-IsBlocks dir d.lo d.hi (enlarged din s)
              (enlarged-IsInode din s d.inode),
        )
        refl

  module _ (s0 : Fs) (direct0 : List ℕ) (since : IsSince s0 s)
      (from : IsFrom direct0 (length es) s0 din.direct (length es + 1))
      (no_new : length es % 8 ≢ 0
        → (j : ℕ) → bit_at (bitmap_of s) j ≡ bit_at (bitmap_of s0) j) where
    put_elsewhere :
        (b : ℕ) → b ≢ block_no din.direct (length es) → put.disk.content b ≡ s.disk.content b
    unfolding put
    put_elsewhere = with_slot_elsewhere d.blocks (length es) here (dirent_bytes de) len bs

    data_lo : blk_data_start ≤ block_no din.direct (length es)
    data_lo = d.blocks.lo (entry_block (length es)) (omega (arith, here))

    elsewhere :
        (b : ℕ)
        → b ≢ table_blk dir
        → b ≢ block_no din.direct (length es)
        → added_to.disk.content b ≡ s.disk.content b
    unfolding added_to
    elsewhere b ne ne' =
        with_inode_elsewhere put-IsBlocks dir d.lo d.hi (enlarged din s)
          (enlarged-IsInode din s d.inode) b ne
        ∙ put_elsewhere b ne'

    inode_kept :
        (j : ℕ)
        → 1 ≤ j
        → j ≤ max_inodes
        → j ≢ dir
        → slice (table_off j) 128 (added_to.disk.content (table_blk j))
          ≡ slice (table_off j) 128 (s0.disk.content (table_blk j))
    unfolding added_to
    inode_kept j lo hi ne =
        with_inode_entry put-IsBlocks dir d.lo d.hi (enlarged din s)
          (enlarged-IsInode din s d.inode) j lo ne
        ∙ ap (slice (table_off j) 128) (
            put_elsewhere (table_blk j) (λ e. absurd (omega (arith, data_lo)))
            ∙ since.table (table_blk j) (omega arith) (omega arith))

    bitmap_kept : bitmap_of added_to ≡ bitmap_of s
    unfolding added_to put
    bitmap_kept =
        elsewhere s.g_sb.block_bitmap_blk
          (λ e. absurd (omega (arith, d.blocks.mounted.block_bitmap)))
          (λ e. absurd (omega (arith, data_lo, d.blocks.mounted.block_bitmap)))

    added_to-IsKept : IsKept dir direct0 (length es) s0 din.direct (length es + 1) added_to
    added_to-IsKept = record {
      one_bit =
          (since.one_bit.0, λ j ne. ap (λ bm. bit_at bm j) bitmap_kept ∙ since.one_bit.1 j ne);
      no_bit = λ q j. ap (λ bm. bit_at bm j) bitmap_kept ∙ no_new q j;
      from = from;
      mounted = added_to-IsDirectory.blocks.mounted;
      inodes = inode_kept;
      data_blocks = λ b lo t apart.
          elsewhere b (λ e. absurd (omega (arith, d.hi)))
            (apart (entry_block (length es)) (omega arith))
          ∙ since.data_blocks b lo t;
      taken = λ b t. ap (λ bm. bit_at bm b) bitmap_kept ∙ since.taken b t;
    }

    -- The entry is behind the others.
    pub put_entry_lem :
        (t : Fs) × (put_entry dir (length es) de (din, slot_block din.direct s (length es)) s
          ≡ some (ok tt, t))
        × IsDirectory dir (enlarged din s) (es ++ de ∷ []) t
        × IsKept dir direct0 (length es) s0 din.direct (length es + 1) t
    put_entry_lem = (added_to, put_entry_run, added_to-IsDirectory, added_to-IsKept)
