-- ===== src/Ext2/Bitmap.antt =====
-- project3/src/bitmap.c: the two bitmaps and the allocation of blocks and inodes.
pub mod Bits
pub mod Scan
pub mod Store
pub mod Alloc
pub mod Free
use Prim.Native.Nat.{bit_and, bit_or}
use xjtu_os_project.Prelude.{
  ℕ, zero, suc, ◌+◌, ◌-◌, ◌/◌, ◌%◌, ◌^◌, Bool, true, false, ◌||◌, List, Option, none, some,
  if◌then◌else◌, ltb, leb, ◌==◌, get_or, set,
}
use xjtu_os_project.Ext2.Bytes.{block_size}
use xjtu_os_project.Ext2.State.{
  Superblock, Fs, enospc, ok, M, pure, fail, ◌>>=◌, ◌>>◌, get, modify, ignore, must,
}
use xjtu_os_project.Ext2.Dev.{
  total_blocks, dev_read_block, dev_write_block, write_super, write_gdesc,
}

abbrev pub blk_data_start : ℕ
blk_data_start = 69

abbrev pub max_inodes : ℕ
max_inodes = 256

-- `(bm[i>>3]>>(i&7))&1u`
unfoldable pub bit_at : List ℕ → ℕ → ℕ
bit_at bm i = get_or bm (i / 8) 0 / 2 ^ (i % 8) % 2

-- `bm[byte]|=(1u<<bit)`
unfoldable pub bit_set : List ℕ → ℕ → List ℕ
bit_set bm i = set bm (i / 8) (bit_or (get_or bm (i / 8) 0) (2 ^ (i % 8)) % 256)

-- `bm[byte]&=~(1u<<bit)`, with the complement in 32 bits
unfoldable pub bit_clear : List ℕ → ℕ → List ℕ
bit_clear bm i = set bm (i / 8) (bit_and (get_or bm (i / 8) 0) (2 ^ 32 - 1 - 2 ^ (i % 8)) % 256)

-- The array `bm` has `BLOCK_SIZE` bytes.
abbrev pub in_bounds : ℕ → Bool
in_bounds i = ltb (i / 8) block_size

-- The two uses of `bitop`, with `set` 0 and 1.
unfoldable pub bitop_test : List ℕ → ℕ → Option ℕ
bitop_test bm i = if in_bounds i then some (bit_at bm i) else none

unfoldable pub bitop_set : List ℕ → ℕ → Bool → Option (List ℕ)
bitop_set bm i val =
    if in_bounds i then some (if val then bit_set bm i else bit_clear bm i) else none

abbrev pub lift : {A : Type 0} → Option A → M A
lift none s = none
lift (some a) s = some (ok a, s)

abbrev pub bitmap_blk : Superblock → Bool → ℕ
bitmap_blk sb is_block = if is_block then sb.block_bitmap_blk else sb.inode_bitmap_blk

-- The result code of `dev_read_block` is not looked at.
unfoldable pub bmap_test : ℕ → Bool → M ℕ
unfolding bitop_test
bmap_test i is_block = do
  s ← get
  buf ← must (dev_read_block (bitmap_blk s.g_sb is_block))
  lift (bitop_test buf i)

unfoldable pub bmap_set : ℕ → Bool → Bool → M (Unit {0})
unfolding bitop_set
bmap_set i is_block val = do
  s ← get
  buf ← must (dev_read_block (bitmap_blk s.g_sb is_block))
  buf' ← lift (bitop_set buf i val)
  dev_write_block buf' (bitmap_blk s.g_sb is_block)

-- The loop over `n` bits from `i` on, up to the first that is clear: `some none` if there is none.
unfoldable pub scan : ℕ → ℕ → List ℕ → Option (Option ℕ)
scan zero i bm = some none
scan (suc n) i bm = elim (bitop_test bm i) [
  | none ↦ none
  | some b ↦ elim (b == 0) [ true ↦ some (some i) | false ↦ scan n (i + 1) bm ]
]

-- `x--` and `x++` on a `uint32_t`
abbrev pub dec32 : ℕ → ℕ
dec32 x = (x + 2 ^ 32 - 1) % 2 ^ 32

abbrev pub inc32 : ℕ → ℕ
inc32 x = (x + 1) % 2 ^ 32

abbrev pub sb_blocks : (ℕ → ℕ) → Fs → Fs
sb_blocks f s = record s { g_sb = record (s.g_sb) { free_blocks = f s.g_sb.free_blocks } }

abbrev pub gd_blocks : (ℕ → ℕ) → Fs → Fs
gd_blocks f s = record s {
  g_gd = record (s.g_gd) { free_blocks_count = f s.g_gd.free_blocks_count };
}

abbrev pub sb_inodes : (ℕ → ℕ) → Fs → Fs
sb_inodes f s = record s { g_sb = record (s.g_sb) { free_inodes = f s.g_sb.free_inodes } }

abbrev pub gd_inodes : (ℕ → ℕ) → Fs → Fs
gd_inodes f s = record s {
  g_gd = record (s.g_gd) { free_inodes_count = f s.g_gd.free_inodes_count };
}

-- The end of `alloc_block` and `alloc_inode`, which differ in the bitmap and in the counters.
unfoldable pub claim : ℕ → (Fs → Fs) → (Fs → Fs) → List ℕ → Option ℕ → M ℕ
claim blk on_sb on_gd bm none = fail enospc
claim blk on_sb on_gd bm (some i) = do
  dev_write_block (bit_set bm i) blk
  modify on_sb
  ignore write_super
  modify on_gd
  ignore write_gdesc
  pure i

unfoldable pub alloc_block : M ℕ
unfolding claim
alloc_block = do
  s ← get
  bm ← dev_read_block s.g_sb.block_bitmap_blk
  found ← lift (scan (total_blocks - blk_data_start) blk_data_start bm)
  claim s.g_sb.block_bitmap_blk (sb_blocks dec32) (gd_blocks dec32) bm found

unfoldable pub alloc_inode : M ℕ
unfolding claim
alloc_inode = do
  s ← get
  bm ← dev_read_block s.g_sb.inode_bitmap_blk
  found ← lift (scan max_inodes 1 bm)
  claim s.g_sb.inode_bitmap_blk (sb_inodes dec32) (gd_inodes dec32) bm found

-- The end of `free_block` and `free_inode`.
unfoldable pub give_back : Bool → (Fs → Fs) → (Fs → Fs) → ℕ → ℕ → M (Unit {0})
give_back is_block on_sb on_gd i zero = pure tt
give_back is_block on_sb on_gd i (suc _) = do
  ignore (bmap_set i is_block false)
  modify on_sb
  ignore write_super
  modify on_gd
  ignore write_gdesc

unfoldable pub free_block : ℕ → M (Unit {0})
unfolding give_back
free_block blk =
    if ltb blk blk_data_start || leb total_blocks blk
    then pure tt
    else do used ← bmap_test blk true; give_back true (sb_blocks inc32) (gd_blocks inc32) blk used

unfoldable pub free_inode : ℕ → M (Unit {0})
unfolding give_back
free_inode ino =
    if ino == 0 || ltb max_inodes ino
    then pure tt
    else do used ← bmap_test ino false; give_back false (sb_inodes inc32) (gd_inodes inc32) ino used
