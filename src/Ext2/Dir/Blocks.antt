-- ===== src/Ext2/Dir/Blocks.antt =====
-- project3/src/dir.c: the blocks of a directory, and what writing an entry does to them.
use xjtu_os_project.Prelude.{
  some, ℕ, ◌+◌, ◌*◌, ◌<◌, ◌≤◌, ◌≡◌, ◌≢◌, ◌⊎◌, inl, inr, refl, ap, sym, ◌∙◌, List, Bool-cases, ◌==◌,
  some, arith, length, get_or,
}
use xjtu_os_project.Ext2.Bytes.{IsBytes, slice, splice}
use xjtu_os_project.Ext2.Bytes.Laws.{slice-splice, slice-splice_ne, length-splice, splice-IsBytes}
use xjtu_os_project.Ext2.State.{Inode, Fs, ok}
use xjtu_os_project.Ext2.Dev.Laws.{IsMounted, IsMounted-same, wrote, wrote-IsMounted}
use xjtu_os_project.Ext2.Bitmap.{bit_at, blk_data_start, max_inodes}
use xjtu_os_project.Ext2.Inode.Bytes.{IsInode}
use xjtu_os_project.Ext2.Inode.Table.{
  stored_inode, stored_inode-IsMounted, entry_kept, table_blk, table_off, read_back,
  write_inode_run,
}
use xjtu_os_project.Ext2.Inode.{read_inode, write_inode}
use xjtu_os_project.Ext2.Map.Fresh.{bitmap_of}
use xjtu_os_project.Ext2.Dir.{dirent_size, entry_block, entry_off}

-- The block of entry `k`, its bytes, and the 64 bytes of the entry.
abbrev pub block_no : List ℕ → ℕ → ℕ
block_no direct k = get_or direct (entry_block k) 0

abbrev pub slot_block : List ℕ → Fs → ℕ → List ℕ
slot_block direct s k = s.disk.content (block_no direct k)

abbrev pub slot : List ℕ → Fs → ℕ → List ℕ
slot direct s k = slice (entry_off k) dirent_size (slot_block direct s k)

-- The blocks for `n` entries are taken data blocks, all different.
pub record IsBlocks (direct : List ℕ) (n : ℕ) (s : Fs) : Type 0 where
  pub mounted : IsMounted s
  pub room : n ≤ 80
  pub lo : (b : ℕ) → b * 8 < n → blk_data_start ≤ get_or direct b 0
  pub hi : (b : ℕ) → b * 8 < n → get_or direct b 0 < 4096
  pub taken : (b : ℕ) → b * 8 < n → bit_at (bitmap_of s) (get_or direct b 0) ≡ 1
  pub distinct : (b c : ℕ) → b * 8 < n → c * 8 < n → get_or direct b 0 ≡ get_or direct c 0 → b ≡ c

module _ {direct : List ℕ} {n : ℕ} {s : Fs} (d : IsBlocks direct n s) where
  -- A state that differs elsewhere.
  pub IsBlocks-same : (t : Fs) → IsMounted t → bitmap_of t ≡ bitmap_of s → IsBlocks direct n t
  IsBlocks-same t m e = record {
    mounted = m;
    room = d.room;
    lo = d.lo;
    hi = d.hi;
    taken = λ b h. ap (λ bm. bit_at bm (get_or direct b 0)) e ∙ d.taken b h;
    distinct = d.distinct;
  }

  module _ (k : ℕ) (h : k < n) (src : List ℕ) (len : length src ≡ 64) (bs : IsBytes src) where
    -- The state after the bytes of entry `k` are written.
    abbrev pub with_slot : Fs
    with_slot = wrote (block_no direct k) (splice (entry_off k) src (slot_block direct s k)) s

    first_lo : blk_data_start ≤ block_no direct k
    first_lo = d.lo (entry_block k) (omega arith)

    pub first_hi : block_no direct k < 4096
    first_hi = d.hi (entry_block k) (omega arith)

    fits : entry_off k + length src ≤ length (slot_block direct s k)
    fits = omega (arith, d.mounted.sized (block_no direct k))

    pub with_slot-IsBlocks : IsBlocks direct n with_slot
    with_slot-IsBlocks =
        IsBlocks-same with_slot
          (wrote-IsMounted s d.mounted (block_no direct k) _ (omega (arith, first_hi))
            (length-splice (entry_off k) src (slot_block direct s k) fits
              ∙ d.mounted.sized (block_no direct k))
            (splice-IsBytes (entry_off k) src (slot_block direct s k) bs
              (d.mounted.bytes (block_no direct k))))
          (ground (arith, first_lo, d.mounted.block_bitmap))

    there :
        with_slot.disk.content (block_no direct k)
        ≡ splice (entry_off k) src (slot_block direct s k)
    there = ground arith

    pub slot_written : slot direct with_slot k ≡ src
    slot_written =
        ap (slice (entry_off k) dirent_size) there
        ∙ (ap (λ l. slice (entry_off k) l (splice (entry_off k) src (slot_block direct s k)))
              (sym len)
            ∙ slice-splice (entry_off k) src (slot_block direct s k) (omega (arith, fits)))

    pub with_slot_elsewhere :
        (b : ℕ) → b ≢ block_no direct k → with_slot.disk.content b ≡ s.disk.content b
    with_slot_elsewhere b ne = ground arith

    pub slot_kept : (j : ℕ) → j < n → j ≢ k → slot direct with_slot j ≡ slot direct s j
    slot_kept j h' ne = elim (Bool-cases (entry_block j == entry_block k)) [
      | inl same ↦
          let e : entry_block j ≡ entry_block k = ground arith in
          ap (λ b. slice (entry_off j) dirent_size (with_slot.disk.content (get_or direct b 0))) e
          ∙ (ap (slice (entry_off j) dirent_size) there
              ∙ (slice-splice_ne (entry_off j) 64 (entry_off k) src (slot_block direct s k) fits
                    (apart j ne e)
                  ∙ ap (λ b. slice (entry_off j) dirent_size (s.disk.content (get_or direct b 0)))
                      (sym e)))
      | inr other ↦ ap (slice (entry_off j) dirent_size) (elsewhere (far j h' (ground arith)))
    ]
      where
        apart :
            (j : ℕ)
            → j ≢ k
            → entry_block j ≡ entry_block k
            → (entry_off j + 64 ≤ entry_off k) ⊎ (entry_off k + length src ≤ entry_off j)
        apart j ne e = omega (arith, len)

        far :
            (j : ℕ) → j < n → entry_block j ≢ entry_block k → block_no direct j ≢ block_no direct k
        far j h' ne e =
            ne (d.distinct (entry_block j) (entry_block k) (omega arith) (omega arith) e)

        elsewhere :
            block_no direct j ≢ block_no direct k
            → slot_block direct with_slot j ≡ slot_block direct s j
        elsewhere f = ground arith

  module _ (dir : ℕ) (lo : 1 ≤ dir) (hi : dir ≤ max_inodes) (i : Inode) (v : IsInode i) where
    -- The inode is written; the clock has been asked.
    abbrev pub with_inode : Fs
    with_inode = stored_inode dir lo hi i (record s { calls = s.calls + 1 })

    ticked : IsMounted (record s { calls = s.calls + 1 })
    ticked = IsMounted-same d.mounted refl refl refl refl refl refl refl

    pub with_inode-IsBlocks : IsBlocks direct n with_inode
    with_inode-IsBlocks =
        IsBlocks-same with_inode
          (stored_inode-IsMounted dir lo hi i v (record s { calls = s.calls + 1 }) ticked)
          (ground (arith, d.mounted.block_bitmap))

    pub with_inode_reads : read_inode dir with_inode ≡ some (ok i, with_inode)
    with_inode_reads = read_back dir lo hi i v (record s { calls = s.calls + 1 }) ticked

    pub with_inode_run :
        write_inode dir i (record s { calls = s.calls + 1 }) ≡ some (ok tt, with_inode)
    with_inode_run = write_inode_run dir lo hi i (record s { calls = s.calls + 1 }) ticked

    pub slot-with_inode : (j : ℕ) → j < n → slot direct with_inode j ≡ slot direct s j
    slot-with_inode j h =
        let l = d.lo (entry_block j) (omega arith) in
        ap (slice (entry_off j) dirent_size) (ground arith)

    pub with_inode_elsewhere :
        (b : ℕ) → b ≢ table_blk dir → with_inode.disk.content b ≡ s.disk.content b
    with_inode_elsewhere b ne = ground arith

    pub with_inode_entry :
        (j : ℕ)
        → 1 ≤ j
        → j ≢ dir
        → slice (table_off j) 128 (with_inode.disk.content (table_blk j))
          ≡ slice (table_off j) 128 (s.disk.content (table_blk j))
    with_inode_entry j lo' ne =
        entry_kept dir lo hi i v (record s { calls = s.calls + 1 }) ticked j lo' ne
