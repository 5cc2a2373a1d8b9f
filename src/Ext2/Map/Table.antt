-- ===== src/Ext2/Map/Table.antt =====
-- project3/src/file.c: the blocks behind the table of the indirect block.
use xjtu_os_project.Prelude.{
  ℕ, ◌+◌, ◌-◌, ◌<◌, ◌≤◌, ◌≡◌, ◌≢◌, inl, inr, refl, ap, sym, ◌∙◌, List, Option, none, some, arith,
  false, Bool-cases, ltb, ◌==◌, length, get_or, set, get_or-set_self, length-set,
}
use xjtu_os_project.Ext2.Bytes.{zero_block, words_bytes}
use xjtu_os_project.Ext2.Bytes.Laws.{length-words_bytes, words_bytes-IsBytes}
use xjtu_os_project.Ext2.Bytes.Words.{
  length-words_at, IsWords, words_at-IsWords, set-IsWords, words_back,
}
use xjtu_os_project.Ext2.State.{Inode, Fs, Result, fs_err, ok, err, ◌>>=◌, or_else, ts_now}
use xjtu_os_project.Ext2.Dev.Laws.{
  IsMounted, wrote, dev_read_block_lem, dev_write_block_lem, wrote-IsMounted,
}
use xjtu_os_project.Ext2.Bitmap.{bit_at, blk_data_start}
use xjtu_os_project.Ext2.Inode.{ndirect}
use xjtu_os_project.Ext2.Map.{
  as_int, new_block, ensure_table, map_in_table, map_indirect, map_bn_for_read,
}
use xjtu_os_project.Ext2.Map.Fresh.{bitmap_of, IsFresh, NewBlock, new_block_lem}
use xjtu_os_project.Ext2.Map.Blocks.{
  MapResult, stored_block, number_there, as_int_ok, block_or_err_lem, table, read_table, tick,
  tick-IsMounted,
}

-- The table stands in a data block that has a bit and is marked as taken.
pub record HasTable (i : Inode) (s : Fs) : Type 0 where
  pub lo : blk_data_start ≤ i.indirect1
  pub hi : i.indirect1 < 4096
  pub taken : bit_at (bitmap_of s) i.indirect1 ≢ 0

module _ (i : Inode) (bn : ℕ) (s : Fs) (m : IsMounted s) (lo : ndirect ≤ bn)
    (hi : bn < ndirect + 128) (has : HasTable i s) where
  pub read_entry :
      (b : ℕ)
      → get_or (table i bn s) (bn - ndirect) 0 ≡ b
      → b ≢ 0
      → map_bn_for_read i bn s ≡ as_int b s
  read_entry b e ne =
      rw (read_table i bn s m lo hi (omega (arith, has.lo)) has.hi, e) (block_or_err_lem b s ne)

  pub read_no_entry :
      get_or (table i bn s) (bn - ndirect) 0 ≡ 0 → map_bn_for_read i bn s ≡ some (err fs_err, s)
  read_no_entry e = rw (read_table i bn s m lo hi (omega (arith, has.lo)) has.hi, e) refl

-- The state after block `b` is entered in the table, on a disk where `b` has been taken.
abbrev entered : Inode → List ℕ → Fs → Fs
entered i tbl t = wrote i.indirect1 (words_bytes tbl) t

module _ (i : Inode) (bn : ℕ) (s : Fs) (m : IsMounted s) (lo : ndirect ≤ bn)
    (hi : bn < ndirect + 128) (has : HasTable i s) where
  abbrev new_table : ℕ → List ℕ
  new_table b = set (table i bn s) (bn - ndirect) b

  new_table_lem :
      (b : ℕ)
      → b < 4096
      → (length (new_table b) ≡ 128)
        × IsWords (new_table b)
        × (get_or (new_table b) (bn - ndirect) 0 ≡ b)
  new_table_lem b h =
      let len : length (table i bn s) ≡ 128 = length-words_at 128 (s.disk.content i.indirect1) in
      (
        length-set (table i bn s) (bn - ndirect) b ∙ len,
        set-IsWords (table i bn s) (bn - ndirect) b (omega arith)
            (words_at-IsWords 128 (s.disk.content i.indirect1) (m.bytes i.indirect1)),
        get_or-set_self (table i bn s) (bn - ndirect) b 0 (omega (arith, len)),
      )

  module _ (b : ℕ) (t : Fs) (f : IsFresh s b t) where
    entered-IsMounted : IsMounted (entered i (new_table b) t)
    entered-IsMounted =
        wrote-IsMounted t f.mounted i.indirect1 (words_bytes (new_table b)) (omega (arith, has.hi))
          (omega (arith, length-words_bytes (new_table b), (new_table_lem b f.hi).0))
          (words_bytes-IsBytes (new_table b))

    after : Fs
    after = tick (entered i (new_table b) t)

    b_ne : b ≢ i.indirect1
    b_ne e = has.taken (ap (bit_at (bitmap_of s)) (sym e) ∙ f.was_free)

    after_bitmap : bitmap_of after ≡ bitmap_of t
    unfolding after
    after_bitmap = ground (arith, f.mounted.block_bitmap, has.lo)

    after_table : after.disk.content i.indirect1 ≡ words_bytes (new_table b)
    unfolding after
    after_table = ground arith

    after_block : after.disk.content b ≡ zero_block
    unfolding after
    after_block = ground (arith, f.zeroed, b_ne)

    after_bit : bit_at (bitmap_of after) b ≡ 1
    after_bit = rw after_bitmap (ground (arith, f.bits b))

    module _ (i' : Inode) (same : i'.indirect1 ≡ i.indirect1) where
      after-HasTable : HasTable i' after
      after-HasTable = record {
        lo = rw same has.lo;
        hi = rw same has.hi;
        taken = rw (same, after_bitmap) (λ z. has.taken (ground (arith, f.bits i.indirect1)));
      }

      after_entry : get_or (table i' bn after) (bn - ndirect) 0 ≡ b
      after_entry =
          let (len, words, back) = new_table_lem b f.hi in
          rw (same, after_table, words_back 128 (new_table b) len words) back

      after_reads : map_bn_for_read i' bn after ≡ some (ok b, after)
      unfolding after
      after_reads =
          read_entry i' bn after (tick-IsMounted _ entered-IsMounted) lo hi after-HasTable b
            after_entry (omega (arith, f.lo))
          ∙ as_int_ok b after (omega (arith, f.hi))

  entry_hole :
      (r : Option (Result ℕ × Fs))
      → get_or (table i bn s) (bn - ndirect) 0 ≡ 0
      → new_block s ≡ r
      → NewBlock s r
      → MapResult i bn s (map_in_table i (bn - ndirect) (table i bn s) s)
  unfolding map_in_table ts_now after
  entry_hole none hole e full = rw (hole, e, ◌>>=◌) (0, inl refl, λ j lo hi ne. full j lo hi)
  entry_hole (some (err _, t)) hole e f = absurd f
  entry_hole (some (ok b, t)) hole e f =
      rw
        (
          hole,
          e,
          ◌>>=◌,
          or_else,
          dev_write_block_lem (words_bytes (new_table b)) i.indirect1 t f.mounted.opened
              (omega (arith, has.hi)),
        )
        (record {
          reads = after_reads b t f _ refl;
          mounted = tick-IsMounted _ (entered-IsMounted b t f);
          from = inr (
            read_no_entry i bn s m lo hi has hole,
            f.was_free,
            after_bit b t f,
            after_block b t f,
          );
        })

  pub map_in_table_lem : MapResult i bn s (map_in_table i (bn - ndirect) (table i bn s) s)
  unfolding map_in_table
  map_in_table_lem = elim (Bool-cases (get_or (table i bn s) (bn - ndirect) 0 == 0)) [
    | inl e ↦ entry_hole _ (ground arith) refl (new_block_lem s m)
    | inr e ↦
        rw e (number_there i bn s m _ (read_entry i bn s m lo hi has _ refl (ground arith)) stored)
  ]
    where
      past : ltb bn ndirect ≡ false
      past = ground arith

      there : (i.indirect1 == 0) ≡ false
      there = ground (arith, has.lo)

      stored : stored_block i bn s ≡ get_or (table i bn s) (bn - ndirect) 0
      stored = rw (past, there) refl

  -- With the table there, all that is left is the entry.
  pub with_table : MapResult i bn s (map_indirect i (bn - ndirect) s)
  unfolding map_indirect ensure_table
  with_table =
      rw (there, ◌>>=◌, or_else, dev_read_block_lem i.indirect1 s m (omega (arith, has.hi)))
        map_in_table_lem
    where
      there : (i.indirect1 == 0) ≡ false
      there = ground (arith, has.lo)
