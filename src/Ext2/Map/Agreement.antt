-- ===== src/Ext2/Map/Agreement.antt =====
-- project3/src/file.c: the block that `map_bn_for_write` finds or takes is the one that
-- `map_bn_for_read` finds afterwards.
use xjtu_os_project.Prelude.{
  ℕ, ◌+◌, ◌-◌, ◌<◌, ◌≤◌, ◌≡◌, ◌≢◌, ◌⊎◌, inl, inr, refl, sym, ◌∙◌, Option, none, some, arith, true,
  false, Bool-cases, ltb, leb, ◌==◌, length, get_or,
}
use xjtu_os_project.Ext2.Bytes.{zero_block}
use xjtu_os_project.Ext2.Bytes.Words.{words_zero, get_or-replicate}
use xjtu_os_project.Ext2.State.{Inode, Fs, Result, fs_err, ok, err, ◌>>=◌, or_else, ts_now}
use xjtu_os_project.Ext2.Dev.Laws.{IsMounted, dev_read_block_lem}
use xjtu_os_project.Ext2.Bitmap.{bit_at}
use xjtu_os_project.Ext2.Inode.{ndirect}
use xjtu_os_project.Ext2.Map.{
  new_block, ensure_table, map_indirect, map_bn_for_write, map_bn_for_read,
}
use xjtu_os_project.Ext2.Map.Fresh.{bitmap_of, IsFresh, NewBlock, new_block_lem}
use xjtu_os_project.Ext2.Map.Blocks.{
  MapResult, stored_block, table, tick, tick-IsMounted, map_direct_lem,
}
use xjtu_os_project.Ext2.Map.Table.{HasTable, read_no_entry, map_in_table_lem, with_table}

module _ (i : Inode) (bn : ℕ) (s : Fs) (m : IsMounted s) (lo : ndirect ≤ bn)
    (hi : bn < ndirect + 128) (no_table : i.indirect1 ≡ 0) where
  read_hole : map_bn_for_read i bn s ≡ some (err fs_err, s)
  unfolding map_bn_for_read
  read_hole = rw (past, no_table) refl
    where
      past : ltb bn ndirect ≡ false
      past = ground arith

  -- Behind a new table `b`, in the inode `i'`.
  module _ (b : ℕ) (t : Fs) (f : IsFresh s b t) (i' : Inode) (here : i'.indirect1 ≡ b) where
    tick-HasTable : HasTable i' (tick t)
    tick-HasTable = record {
      lo = rw here f.lo;
      hi = rw here f.hi;
      taken = rw here (λ z. ground (arith, f.bits b));
    }

    empty_table : get_or (table i' bn (tick t)) (bn - ndirect) 0 ≡ 0
    empty_table =
        rw (here, f.zeroed) (words_zero 128 (bn - ndirect) zero_block (get_or-replicate 512))

    read_new_table : map_bn_for_read i' bn (tick t) ≡ some (err fs_err, tick t)
    read_new_table =
        read_no_entry i' bn (tick t) (tick-IsMounted t f.mounted) lo hi tick-HasTable empty_table

    free_before : (j : ℕ) → bit_at (bitmap_of t) j ≡ 0 → bit_at (bitmap_of s) j ≡ 0
    free_before j e = ground (arith, f.bits j)

    still_taken : (j : ℕ) → j ≢ b → bit_at (bitmap_of s) j ≡ 0 → bit_at (bitmap_of t) j ≡ 0
    still_taken j ne e = ground (arith, f.bits j)

    no_number : stored_block i' bn (tick t) ≡ 0
    no_number = rw (past, behind_there) empty_table
      where
        past : ltb bn ndirect ≡ false
        past = ground arith

        behind_there : (i'.indirect1 == 0) ≡ false
        behind_there = ground (arith, here, f.lo)

    contradiction : (c : ℕ) → map_bn_for_read i' bn (tick t) ≡ some (ok c, tick t) → ⊥
    contradiction c e =
        let clash : Path (Option (Result ℕ × Fs)) (some (err fs_err, tick t))
            (some (ok c, tick t)) =
          sym read_new_table ∙ e in
        cc

    from_before :
        (r : Option (Result (Inode × ℕ) × Fs)) → MapResult i' bn (tick t) r → MapResult i bn s r
    from_before none (k, inl zero_k, full) =
        (b, inr no_table, λ j at lt ne z. full j at lt (omega arith) (still_taken j ne z))
    from_before none (k, inr none_yet, full) = absurd (omega (arith, f.lo, here))
    from_before (some (err e, u)) (inl (eq, far), same) = absurd (omega arith)
    from_before (some (err e, u)) (inr (large, eq, reads), same) =
        absurd (omega (arith, large, no_number))
    from_before (some (ok (i2, c), u)) r = elim r.from [
      | inl (reads, _, _) ↦ absurd (contradiction c reads)
      | inr (hole, was_free, taken, zeroed) ↦ record {
        reads = r.reads;
        mounted = r.mounted;
        from = inr (read_hole, free_before c was_free, taken, zeroed);
      }
    ]

  there : (i.indirect1 == 0) ≡ true
  there = ground arith

  new_table_from :
      (r : Option (Result ℕ × Fs))
      → new_block s ≡ r
      → NewBlock s r
      → MapResult i bn s (map_indirect i (bn - ndirect) s)
  unfolding map_indirect ensure_table ts_now
  new_table_from none e full = rw (there, e, ◌>>=◌) (0, inl refl, λ j at lt ne. full j at lt)
  new_table_from (some (err _, t)) e f = absurd f
  new_table_from (some (ok b, t)) e f =
      rw
        (
          there,
          e,
          ◌>>=◌,
          or_else,
          dev_read_block_lem b (tick t) (tick-IsMounted t f.mounted) (omega (arith, f.hi)),
        )
        (from_before b t f _ refl _ (
          map_in_table_lem _ bn (tick t) (tick-IsMounted t f.mounted) lo hi
            (tick-HasTable b t f _ refl)))

-- On an open image of full size, for an inode with ten direct entries whose table, if it has one,
-- is in a block below 4096 marked as taken: after `map_bn_for_write`, `map_bn_for_read` of the same
-- block number finds the block returned. Either it found it before too, and nothing has changed; or
-- there was a hole, and the block was free, is now marked as taken, and is zeroed. There are two
-- errors, which change nothing: FS_ENOSPC for a block number of 138 or more, and, where the inode or
-- its table has a number of 2^31 or more for the block, that number as an `int`, which
-- `map_bn_for_read` returns too. The bitmap's buffer is left, with no result, only where all data
-- blocks below 4096 are taken, or where the inode has no table and at most one of them is free.
pub map_bn_for_write-MapResult :
    (i : Inode) (bn : ℕ) (s : Fs)
    → IsMounted s
    → length i.direct ≡ ndirect
    → (i.indirect1 ≡ 0) ⊎ HasTable i s
    → MapResult i bn s (map_bn_for_write i bn s)
unfolding map_bn_for_write
map_bn_for_write-MapResult i bn s m sized tbl = elim (Bool-cases (ltb bn ndirect)) [
  | inl e ↦ rw e (map_direct_lem i bn s m (ground arith) sized)
  | inr e ↦ elim (Bool-cases (leb 128 (bn - ndirect))) [
    | inl far ↦ rw (e, far) (inl (refl, ground arith), refl)
    | inr near ↦ rw (e, near) (behind (ground arith) (ground arith) tbl)
  ]
]
  where
    behind :
        ndirect ≤ bn
        → bn < ndirect + 128
        → (i.indirect1 ≡ 0) ⊎ HasTable i s
        → MapResult i bn s (map_indirect i (bn - ndirect) s)
    behind lo hi (inl none_yet) = new_table_from i bn s m lo hi none_yet _ refl (new_block_lem s m)
    behind lo hi (inr has) = with_table i bn s m lo hi has
