-- ===== src/Ext2/Inode/Table.antt =====
-- project3/src/inode.c: `read_inode` and `write_inode` on an open image.
use xjtu_os_project.Prelude.{
  ℕ, ◌+◌, ◌-◌, ◌*◌, ◌/◌, ◌%◌, ◌<◌, ◌≤◌, ◌≡◌, ◌≢◌, ap, sym, ◌∙◌, ◌⊎◌, inl, inr, some, arith, ◌==◌,
  Bool-cases,
}
use xjtu_os_project.Ext2.Bytes.{slice, splice}
use xjtu_os_project.Ext2.Bytes.Laws.{slice-splice, slice-splice_ne, length-splice, splice-IsBytes}
use xjtu_os_project.Ext2.State.{Inode, Fs, ok, ◌>>=◌}
use xjtu_os_project.Ext2.Dev.Laws.{
  IsMounted, wrote, dev_read_block_lem, dev_write_block_lem, wrote-IsMounted,
}
use xjtu_os_project.Ext2.Bitmap.{max_inodes}
use xjtu_os_project.Ext2.Inode.{inode_bytes, inode_of, inode_pos, read_inode, write_inode}
use xjtu_os_project.Ext2.Inode.Bytes.{
  IsInode, inode_of-inode_bytes, length-inode_bytes, inode_bytes-IsBytes,
}

-- Block and offset of an inode in the table that starts at block 5.
abbrev pub table_blk : ℕ → ℕ
table_blk ino = 5 + (ino - 1) * 128 / 512

abbrev pub table_off : ℕ → ℕ
table_off ino = (ino - 1) * 128 % 512

module _ (ino : ℕ) (lo : 1 ≤ ino) (hi : ino ≤ max_inodes) where
  inode_pos_lem :
      (s : Fs) → IsMounted s → inode_pos ino s ≡ some (ok (table_blk ino, table_off ino), s)
  unfolding inode_pos
  inode_pos_lem s m = ground (arith, m.inode_table)

  pub read_inode_run :
      (s : Fs)
      → IsMounted s
      → read_inode ino s
        ≡ some (ok (inode_of (slice (table_off ino) 128 (s.disk.content (table_blk ino)))), s)
  unfolding read_inode
  read_inode_run s m =
      rw (inode_pos_lem s m, ◌>>=◌, dev_read_block_lem (table_blk ino) s m (omega arith))

  -- The state after `write_inode`.
  abbrev pub stored_inode : Inode → Fs → Fs
  stored_inode i s =
      wrote (table_blk ino)
        (splice (table_off ino) (inode_bytes i) (s.disk.content (table_blk ino))) s

  pub write_inode_run :
      (i : Inode) (s : Fs) → IsMounted s → write_inode ino i s ≡ some (ok tt, stored_inode i s)
  unfolding write_inode
  write_inode_run i s m = rw (
    inode_pos_lem s m,
    ◌>>=◌,
    dev_read_block_lem (table_blk ino) s m (omega arith),
    dev_write_block_lem _ (table_blk ino) s m.opened (omega arith),
  )

  module _ (i : Inode) (v : IsInode i) (s : Fs) (m : IsMounted s) where
    pub stored_inode-IsMounted : IsMounted (stored_inode i s)
    stored_inode-IsMounted =
        wrote-IsMounted s m (table_blk ino) _ (omega arith)
          (length-splice (table_off ino) (inode_bytes i) (s.disk.content (table_blk ino))
              (omega (arith, m.sized (table_blk ino), length-inode_bytes i v))
            ∙ m.sized (table_blk ino))
          (splice-IsBytes (table_off ino) (inode_bytes i) (s.disk.content (table_blk ino))
            (inode_bytes-IsBytes i v) (m.bytes (table_blk ino)))

    stored_there :
        (stored_inode i s).disk.content (table_blk ino)
        ≡ splice (table_off ino) (inode_bytes i) (s.disk.content (table_blk ino))
    stored_there = ground arith

    slice_back :
        slice (table_off ino) 128 ((stored_inode i s).disk.content (table_blk ino)) ≡ inode_bytes i
    slice_back =
        ap (slice (table_off ino) 128) stored_there
        ∙ (ap
              (λ n.
                slice (table_off ino) n
                  (splice (table_off ino) (inode_bytes i) (s.disk.content (table_blk ino))))
              (sym (length-inode_bytes i v))
            ∙ slice-splice (table_off ino) (inode_bytes i) (s.disk.content (table_blk ino))
                (omega (arith, m.sized (table_blk ino))))

    pub read_back : read_inode ino (stored_inode i s) ≡ some (ok i, stored_inode i s)
    read_back =
        read_inode_run (stored_inode i s) stored_inode-IsMounted
        ∙ ap (λ x. some (ok x, stored_inode i s))
            (ap inode_of slice_back ∙ inode_of-inode_bytes i v)

module _ (ino : ℕ) (lo : 1 ≤ ino) (hi : ino ≤ max_inodes) (i : Inode) (v : IsInode i) (s : Fs)
    (m : IsMounted s) where
  -- The entry of another inode in the table keeps its bytes.
  pub entry_kept :
      (j : ℕ)
      → 1 ≤ j
      → j ≢ ino
      → slice (table_off j) 128 ((stored_inode ino lo hi i s).disk.content (table_blk j))
        ≡ slice (table_off j) 128 (s.disk.content (table_blk j))
  entry_kept j lo' ne = elim (Bool-cases (table_blk j == table_blk ino)) [
    | inr other ↦ ap (slice (table_off j) 128) (ground arith)
    | inl at ↦
        let same : table_blk j ≡ table_blk ino = ground arith in
        rw same (
          ap (slice (table_off j) 128) (stored_there ino lo hi i v s m)
          ∙ slice-splice_ne (table_off j) 128 (table_off ino) (inode_bytes i)
              (s.disk.content (table_blk ino))
              (omega (arith, m.sized (table_blk ino), length-inode_bytes i v))
              (omega (arith, length-inode_bytes i v)))
  ]

  -- On an open image of full size, after `write_inode` of an inode whose fields are in range,
  -- `read_inode` returns that inode; `write_inode` succeeds, and leaves the image in shape.
  pub read_inode-write_inode :
      (t : Fs) × (write_inode ino i s ≡ some (ok tt, t))
      × (read_inode ino t ≡ some (ok i, t))
      × IsMounted t
  read_inode-write_inode = (
    stored_inode ino lo hi i s,
    write_inode_run ino lo hi i s m,
    read_back ino lo hi i v s m,
    stored_inode-IsMounted ino lo hi i v s m,
  )

  -- On an open image of full size `write_inode` changes no other inode: `read_inode` of any other
  -- number from 1 to 256 returns what it returned before; and no block outside the inode table
  -- changes.
  pub read_inode-write_inode_ne :
      (j : ℕ) (x : Inode) (b : ℕ)
      → 1 ≤ j
      → j ≤ max_inodes
      → j ≢ ino
      → read_inode j s ≡ some (ok x, s)
      → (b < 5) ⊎ (68 < b)
      → (t : Fs) × (write_inode ino i s ≡ some (ok tt, t))
        × (read_inode j t ≡ some (ok x, t))
        × (t.disk.content b ≡ s.disk.content b)
  read_inode-write_inode_ne j x b lo' hi' ne was out = (
    stored_inode ino lo hi i s,
    write_inode_run ino lo hi i s m,
    read_inode_run j lo' hi' (stored_inode ino lo hi i s) (stored_inode-IsMounted ino lo hi i v s m)
        ∙ ap (λ y. some (ok y, stored_inode ino lo hi i s))
            (ap inode_of (entry_kept j lo' ne) ∙ same_inode),
    ground arith,
  )
    where
      same_inode : inode_of (slice (table_off j) 128 (s.disk.content (table_blk j))) ≡ x
      same_inode = cc (read_inode_run j lo' hi' s m)
