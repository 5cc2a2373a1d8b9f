-- ===== src/Ext2/Map/Blocks.antt =====
-- project3/src/file.c: the direct blocks that `map_bn_for_write` and `map_bn_for_read` find.
use xjtu_os_project.Prelude.{
  ℕ, zero, suc, ◌+◌, ◌-◌, ◌^◌, ◌<◌, ◌≤◌, ◌≡◌, ◌≢◌, ◌⊎◌, inl, inr, refl, ◌∙◌, if◌then◌else◌, List,
  Option, none, some, arith, true, false, Bool-cases, ltb, leb, ◌==◌, length, get_or,
  get_or-set_self,
}
use xjtu_os_project.Ext2.Bytes.{zero_block, words_at}
use xjtu_os_project.Ext2.State.{
  Inode, Fs, Errno, Result, fs_err, enospc, ok, err, pure, ◌>>=◌, or_else, ts_now,
}
use xjtu_os_project.Ext2.Dev.Laws.{IsMounted, IsMounted-same, dev_read_block_lem}
use xjtu_os_project.Ext2.Bitmap.{bit_at, blk_data_start}
use xjtu_os_project.Ext2.Inode.{ndirect}
use xjtu_os_project.Ext2.Map.{
  errno_of, as_int, new_block, map_direct, map_bn_for_read, block_or_err,
}
use xjtu_os_project.Ext2.Map.Fresh.{bitmap_of, NewBlock, new_block_lem}

-- Every data block that has a bit is taken; or one is free, but the file has no table yet, which
-- takes it.
abbrev pub IsNearlyFull : Inode → Fs → Type 0
IsNearlyFull i s =
    (k : ℕ) × ((k ≡ 0) ⊎ (i.indirect1 ≡ 0))
    × ((j : ℕ) → blk_data_start ≤ j → j < 4096 → j ≢ k → bit_at (bitmap_of s) j ≢ 0)

-- Block number `bn` of the file as the inode or its table has it.
abbrev pub stored_block : Inode → ℕ → Fs → ℕ
stored_block i bn s =
    if ltb bn ndirect
    then get_or i.direct bn 0
    else if i.indirect1 == 0
    then 0
    else get_or (words_at 128 (s.disk.content i.indirect1)) (bn - ndirect) 0

-- The block number is none that an `int` holds; reading returns the same code.
abbrev pub IsNegative : Inode → ℕ → Fs → Errno → Type 0
IsNegative i bn s e =
    (2 ^ 31 ≤ stored_block i bn s)
    × (e ≡ errno_of (2 ^ 32 - stored_block i bn s))
    × (map_bn_for_read i bn s ≡ some (err e, s))

-- Block `bn` of the file was block `b` of the disk, and nothing changes; or it was a hole, and `b`
-- is a block that was free and is zeroed.
pub record IsMapped (i : Inode) (bn : ℕ) (s : Fs) (i' : Inode) (b : ℕ) (t : Fs) : Type 0 where
  pub reads : map_bn_for_read i' bn t ≡ some (ok b, t)
  pub mounted : IsMounted t
  pub from :
      ((map_bn_for_read i bn s ≡ some (ok b, s)) × (i' ≡ i) × (t ≡ s))
      ⊎ ((map_bn_for_read i bn s ≡ some (err fs_err, s))
          × (bit_at (bitmap_of s) b ≡ 0)
          × (bit_at (bitmap_of t) b ≡ 1)
          × (t.disk.content b ≡ zero_block))

abbrev pub MapResult : Inode → ℕ → Fs → Option (Result (Inode × ℕ) × Fs) → Type 0
MapResult i bn s none = IsNearlyFull i s
MapResult i bn s (some (err e, t)) =
    (((e ≡ enospc) × (ndirect + 128 ≤ bn)) ⊎ IsNegative i bn s e) × (t ≡ s)
MapResult i bn s (some (ok (i', b), t)) = IsMapped i bn s i' b t

pub as_int_ok : (b : ℕ) (s : Fs) → b < 2 ^ 31 → as_int b s ≡ some (ok b, s)
unfolding as_int
as_int_ok b s h = ground arith

pub as_int_negative :
    (b : ℕ) (s : Fs) → 2 ^ 31 ≤ b → as_int b s ≡ some (err (errno_of (2 ^ 32 - b)), s)
unfolding as_int
as_int_negative b s h = ground arith

pub block_or_err_lem : (b : ℕ) (s : Fs) → b ≢ 0 → block_or_err b s ≡ as_int b s
block_or_err_lem zero s h = absurd (h refl)
block_or_err_lem (suc b) s h = refl

module _ (i : Inode) (bn : ℕ) (s : Fs) where
  read_direct : bn < ndirect → map_bn_for_read i bn s ≡ block_or_err (get_or i.direct bn 0) s
  unfolding map_bn_for_read
  read_direct h = rw at_direct refl
    where
      at_direct : ltb bn ndirect ≡ true
      at_direct = ground arith

  pub read_direct_ok :
      (b : ℕ)
      → bn < ndirect
      → get_or i.direct bn 0 ≡ b
      → b ≢ 0
      → map_bn_for_read i bn s ≡ as_int b s
  read_direct_ok b h e ne = rw (read_direct h, e) (block_or_err_lem b s ne)

  pub read_direct_hole :
      bn < ndirect → get_or i.direct bn 0 ≡ 0 → map_bn_for_read i bn s ≡ some (err fs_err, s)
  read_direct_hole h e = rw (read_direct h, e) refl

  -- The table of the indirect block, as it stands on the disk.
  abbrev pub table : List ℕ
  table = words_at 128 (s.disk.content i.indirect1)

  pub read_table :
      IsMounted s
      → ndirect ≤ bn
      → bn < ndirect + 128
      → i.indirect1 ≢ 0
      → i.indirect1 < 4096
      → map_bn_for_read i bn s ≡ block_or_err (get_or table (bn - ndirect) 0) s
  unfolding map_bn_for_read
  read_table m lo hi ne lt =
      rw (past, there, inside, dev_read_block_lem i.indirect1 s m (omega arith), ◌>>=◌, or_else)
        refl
    where
      past : ltb bn ndirect ≡ false
      past = ground arith

      there : (i.indirect1 == 0) ≡ false
      there = ground arith

      inside : leb 128 (bn - ndirect) ≡ false
      inside = ground arith

-- Where the file has the block number `c`, and it is returned.
pub number_there :
    (i : Inode) (bn : ℕ) (s : Fs)
    → IsMounted s
    → (c : ℕ) → map_bn_for_read i bn s ≡ as_int c s
    → stored_block i bn s ≡ c
    → MapResult i bn s ((as_int c >>= λ b. pure (i, b)) s)
number_there i bn s m c reads stored = elim (Bool-cases (ltb c (2 ^ 31))) [
  | inl small ↦
      let found : map_bn_for_read i bn s ≡ some (ok c, s) = reads ∙ as_int_ok c s (ground arith) in
      rw (◌>>=◌, as_int_ok c s (ground arith))
        (record { reads = found; mounted = m; from = inl (found, refl, refl) })
  | inr large ↦
      let failed = reads ∙ as_int_negative c s (ground arith) in
      rw (◌>>=◌, as_int_negative c s (ground arith), stored)
        (inr (ground arith, refl, failed), refl)
]

-- A tick of the clock keeps the image.
abbrev pub tick : Fs → Fs
tick s = record s { calls = s.calls + 1 }

pub tick-IsMounted : (s : Fs) → IsMounted s → IsMounted (tick s)
tick-IsMounted s m = IsMounted-same m refl refl refl refl refl refl refl

module _ (i : Inode) (bn : ℕ) (s : Fs) (m : IsMounted s) (h : bn < ndirect)
    (sized : length i.direct ≡ ndirect) where
  direct_hole :
      (r : Option (Result ℕ × Fs))
      → get_or i.direct bn 0 ≡ 0
      → new_block s ≡ r
      → NewBlock s r
      → MapResult i bn s (map_direct i bn s)
  unfolding map_direct ts_now
  direct_hole none hole e full = rw (hole, e, ◌>>=◌) (0, inl refl, λ j lo hi ne. full j lo hi)
  direct_hole (some (err _, t)) hole e f = absurd f
  direct_hole (some (ok b, t)) hole e f =
      rw (hole, e, ◌>>=◌)
        (record {
          reads =
              read_direct_ok _ bn (tick t) b h (get_or-set_self i.direct bn b 0 (omega arith))
                (omega (arith, f.lo))
              ∙ as_int_ok b (tick t) (omega (arith, f.hi));
          mounted = tick-IsMounted t f.mounted;
          from =
              inr (read_direct_hole i bn s h hole, f.was_free, ground (arith, f.bits b), f.zeroed);
        })

  pub map_direct_lem : MapResult i bn s (map_direct i bn s)
  unfolding map_direct
  map_direct_lem = elim (Bool-cases (get_or i.direct bn 0 == 0)) [
    | inl e ↦ direct_hole _ (ground arith) refl (new_block_lem s m)
    | inr e ↦ rw e (
        number_there i bn s m direct_no (read_direct_ok i bn s _ h refl (ground arith))
          (rw at_direct refl))
  ]
    where
      direct_no : ℕ
      direct_no = get_or i.direct bn 0

      at_direct : ltb bn ndirect ≡ true
      at_direct = ground arith
