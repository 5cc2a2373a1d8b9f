-- ===== src/Ext2/Format/Marks.antt =====
-- project3/src/fs.c: the loops of `fs_format` over blocks, and the marks they leave in the block bitmap.
use xjtu_os_project.Prelude.{
  ℕ, zero, suc, ◌+◌, ◌<◌, ◌≤◌, ◌≡◌, ◌≢◌, refl, ap, ◌∙◌, some, arith, true, if◌then◌else◌, ltb, leb,
  ◌==◌, ◌&&◌,
}
use xjtu_os_project.Ext2.Bytes.{zero_block}
use xjtu_os_project.Ext2.State.{Fs, ok, ◌>>=◌, ◌>>◌, ignore}
use xjtu_os_project.Ext2.Dev.{total_blocks}
use xjtu_os_project.Ext2.Dev.Laws.{IsMounted, wrote, dev_write_block_lem, wrote-IsMounted}
use xjtu_os_project.Ext2.Bitmap.{bit_at, bit_set, bmap_set}
use xjtu_os_project.Ext2.Bitmap.Bits.{bit_at-bit_set, length-bit_set, bit_set-IsBytes}
use xjtu_os_project.Ext2.Bitmap.Store.{bmap_set_lem}
use xjtu_os_project.Ext2.Format.{clear_blocks, reserve_blocks}

-- An open image of zeros, of `n` blocks.
pub record IsZeros (n : ℕ) (s t : Fs) : Type 0 where
  pub opened : t.g_dev ≡ true
  pub blocks : t.disk.blocks ≡ n
  pub zeros : (b : ℕ) → t.disk.content b ≡ zero_block
  pub sb_tail : t.sb_tail ≡ s.sb_tail
  pub gd_tail : t.gd_tail ≡ s.gd_tail

pub clear_blocks_lem :
    (n i k : ℕ) (s t : Fs)
    → IsZeros i s t
    → n + i ≡ k
    → k ≤ total_blocks
    → (t' : Fs) × (clear_blocks n i t ≡ some (ok tt, t')) × IsZeros k s t'
unfolding clear_blocks
clear_blocks_lem zero i k s t v e h = (
  t,
  refl,
  record {
    opened = v.opened;
    blocks = omega (arith, v.blocks, e);
    zeros = v.zeros;
    sb_tail = v.sb_tail;
    gd_tail = v.gd_tail;
  },
)
clear_blocks_lem (suc n) i k s t v e h =
    let (t', run, w) =
      clear_blocks_lem n (i + 1) k s (wrote i zero_block t) one (omega (arith, e)) h in
    (
      t',
      rw (dev_write_block_lem zero_block i t v.opened (omega (arith, e, h)), ignore, ◌>>◌, ◌>>=◌)
          run,
      w,
    )
  where
    one : IsZeros (i + 1) s (wrote i zero_block t)
    one = record {
      opened = v.opened;
      blocks = ground (arith, v.blocks);
      zeros = λ b. ground (arith, v.zeros b);
      sb_tail = v.sb_tail;
      gd_tail = v.gd_tail;
    }

-- From `s` to `t`, the bits from `lo` to below `hi` of the block bitmap have been set, and nothing else
-- has changed.
pub record IsMarked (lo hi : ℕ) (s t : Fs) : Type 0 where
  pub mounted : IsMounted t
  pub bits :
      (j : ℕ)
      → bit_at (t.disk.content 3) j
        ≡ (if leb lo j && ltb j hi then 1 else bit_at (s.disk.content 3) j)
  pub others : (b : ℕ) → b ≢ 3 → t.disk.content b ≡ s.disk.content b
  pub sb : t.g_sb ≡ s.g_sb
  pub gd : t.g_gd ≡ s.g_gd

-- The state when the bit `i` has been set.
abbrev pub marked : ℕ → Fs → Fs
marked i s = wrote 3 (bit_set (s.disk.content 3) i) s

bmap_set-marked :
    (i : ℕ) (s : Fs) → IsMounted s → i < 4096 → bmap_set i true true s ≡ some (ok tt, marked i s)
bmap_set-marked i s m h =
    bmap_set_lem true i true s m (omega (arith, m.block_bitmap)) h
    ∙ ap (λ blk. some (ok tt, wrote blk (bit_set (s.disk.content blk) i) s)) m.block_bitmap

marked-IsMounted : (i : ℕ) (s : Fs) → IsMounted s → IsMounted (marked i s)
marked-IsMounted i s m =
    wrote-IsMounted s m 3 (bit_set (s.disk.content 3) i) (omega arith)
      (length-bit_set (s.disk.content 3) i ∙ m.sized 3)
      (bit_set-IsBytes (s.disk.content 3) i (m.bytes 3))

marked_bits :
    (i j : ℕ) (s : Fs)
    → IsMounted s
    → i < 4096
    → bit_at ((marked i s).disk.content 3) j ≡ (if i == j then 1 else bit_at (s.disk.content 3) j)
marked_bits i j s m h = bit_at-bit_set (s.disk.content 3) i j (m.bytes 3) (omega (arith, m.sized 3))

pub reserve_blocks_lem :
    (n i hi : ℕ) (s : Fs)
    → IsMounted s
    → n + i ≡ hi
    → hi ≤ 4096
    → (t : Fs) × (reserve_blocks n i s ≡ some (ok tt, t)) × IsMarked i hi s t
unfolding reserve_blocks
reserve_blocks_lem zero i hi s m e h = (
  s,
  refl,
  record {
    mounted = m;
    bits = λ j. ground (arith, e);
    others = λ b ne. refl;
    sb = refl;
    gd = refl;
  },
)
reserve_blocks_lem (suc n) i hi s m e h =
    let (t, run, w) =
      reserve_blocks_lem n (i + 1) hi (marked i s) (marked-IsMounted i s m) (omega (arith, e)) h in
    (
      t,
      rw (bmap_set-marked i s m (omega (arith, e, h)), ignore, ◌>>◌, ◌>>=◌) run,
      record {
        mounted = w.mounted;
        bits = λ j. ground (arith, w.bits j, marked_bits i j s m (omega (arith, e, h)), e);
        others = λ b ne. w.others b ne ∙ ground (arith, ne);
        sb = w.sb;
        gd = w.gd;
      },
    )
