-- ===== src/Ext2/Dir/Keeping.antt =====
-- project3/src/dir.c: what `dir_add` leaves alone, so that other directories stay as they are.
use xjtu_os_project.Prelude.{
  ℕ, ◌*◌, ◌%◌, ◌<◌, ◌≤◌, ◌≡◌, ◌≢◌, ◌⊎◌, inl, inr, ap, sym, ◌∙◌, List, some, arith, length, get_or,
}
use xjtu_os_project.Ext2.Bytes.{slice}
use xjtu_os_project.Ext2.State.{Inode, Dirent, Fs, ok}
use xjtu_os_project.Ext2.Dev.Laws.{IsMounted}
use xjtu_os_project.Ext2.Bitmap.{bit_at, blk_data_start, max_inodes}
use xjtu_os_project.Ext2.Inode.{inode_of}
use xjtu_os_project.Ext2.Inode.Table.{table_blk, table_off, read_inode_run}
use xjtu_os_project.Ext2.Map.Fresh.{bitmap_of}
use xjtu_os_project.Ext2.Dir.{dirent_size, dirent_of, entry_block, entry_off}
use xjtu_os_project.Ext2.Dir.Slots.{IsDirectory}

-- Blocks `direct'` for `n'` entries are blocks `direct` for `n` or were free.
abbrev pub IsFrom : List ℕ → ℕ → Fs → List ℕ → ℕ → Type 0
IsFrom direct n s direct' n' =
    (c : ℕ)
    → c * 8 < n'
    → ((c * 8 < n) × (get_or direct' c 0 ≡ get_or direct c 0))
      ⊎ (bit_at (bitmap_of s) (get_or direct' c 0) ≡ 0)

-- The inode table and the data blocks that were taken are as they were, and what was taken is taken; the bit
-- of one block at most has changed.
pub record IsSince (s t : Fs) : Type 0 where
  pub table : (b : ℕ) → 4 < b → b < blk_data_start → t.disk.content b ≡ s.disk.content b
  pub data_blocks :
      (b : ℕ)
      → blk_data_start ≤ b
      → bit_at (bitmap_of s) b ≡ 1
      → t.disk.content b ≡ s.disk.content b
  pub taken : (b : ℕ) → bit_at (bitmap_of s) b ≡ 1 → bit_at (bitmap_of t) b ≡ 1
  pub one_bit : (b : ℕ) × ((j : ℕ) → j ≢ b → bit_at (bitmap_of t) j ≡ bit_at (bitmap_of s) j)

-- From `s` to `t` no inode but `dir` has changed, and of the data blocks that were taken only those of
-- the `n'` entries in the blocks `direct'` of `dir`; the bit of one block at most has changed, and none if
-- the `n` entries do not fill their blocks.
pub record IsKept (dir : ℕ) (direct : List ℕ) (n : ℕ) (s : Fs) (direct' : List ℕ) (n' : ℕ) (t : Fs)
    : Type 0 where
  pub from : IsFrom direct n s direct' n'
  pub mounted : IsMounted t
  pub inodes :
      (j : ℕ)
      → 1 ≤ j
      → j ≤ max_inodes
      → j ≢ dir
      → slice (table_off j) 128 (t.disk.content (table_blk j))
        ≡ slice (table_off j) 128 (s.disk.content (table_blk j))
  pub data_blocks :
      (b : ℕ)
      → blk_data_start ≤ b
      → bit_at (bitmap_of s) b ≡ 1
      → ((c : ℕ) → c * 8 < n' → b ≢ get_or direct' c 0)
      → t.disk.content b ≡ s.disk.content b
  pub taken : (b : ℕ) → bit_at (bitmap_of s) b ≡ 1 → bit_at (bitmap_of t) b ≡ 1
  pub one_bit : (b : ℕ) × ((j : ℕ) → j ≢ b → bit_at (bitmap_of t) j ≡ bit_at (bitmap_of s) j)
  pub no_bit : n % 8 ≢ 0 → (j : ℕ) → bit_at (bitmap_of t) j ≡ bit_at (bitmap_of s) j

-- The blocks for `n` entries and those for `n'` entries are different blocks.
abbrev pub AreApart : List ℕ → ℕ → List ℕ → ℕ → Type 0
AreApart direct n direct' n' =
    (b c : ℕ) → b * 8 < n → c * 8 < n' → get_or direct b 0 ≢ get_or direct' c 0

module _ {p : ℕ} {pdin : Inode} {es : List Dirent} {s t : Fs} (d : IsDirectory p pdin es s)
    {dir n n' : ℕ} {direct direct' : List ℕ} (k : IsKept dir direct n s direct' n' t) (ne : p ≢ dir)
    (apart : AreApart pdin.direct (length es) direct n) where
  -- Blocks that were free are none of the directory's.
  pub still_apart : AreApart pdin.direct (length es) direct' n'
  still_apart b c hb hc e = elim (k.from c hc) [
    | inl (h, same) ↦ apart b c hb h (e ∙ same)
    | inr free ↦
        let clash : ◌≡◌ {A = ℕ} 1 0 =
          sym (d.blocks.taken b hb) ∙ (ap (bit_at (bitmap_of s)) e ∙ free) in
        absurd (omega (arith, clash))
  ]

  -- The directory is as it was.
  pub IsDirectory-kept : IsDirectory p pdin es t
  IsDirectory-kept = record {
    blocks = record {
      mounted = k.mounted;
      room = d.blocks.room;
      lo = d.blocks.lo;
      hi = d.blocks.hi;
      taken = λ b h. k.taken (get_or pdin.direct b 0) (d.blocks.taken b h);
      distinct = d.blocks.distinct;
    };
    lo = d.lo;
    hi = d.hi;
    inode = d.inode;
    reads =
        (read_inode_run p d.lo d.hi t k.mounted
          ∙ ap (λ x. some (ok x, t)) (ap inode_of (k.inodes p d.lo d.hi ne) ∙ same_inode));
    is_directory = d.is_directory;
    size = d.size;
    no_more = d.no_more;
    entries = λ j h.
        ap (λ bs. dirent_of (slice (entry_off j) dirent_size bs))
          (k.data_blocks _ (d.blocks.lo (entry_block j) (omega arith))
            (d.blocks.taken (entry_block j) (omega arith))
            (λ c hc. still_apart (entry_block j) c (omega arith) hc))
        ∙ d.entries j h;
  }
    where
      same_inode : inode_of (slice (table_off p) 128 (s.disk.content (table_blk p))) ≡ pdin
      same_inode = cc (read_inode_run p d.lo d.hi s d.blocks.mounted, d.reads)
