-- ===== src/Ext2/Dir/Growing.antt =====
-- project3/src/dir.c: the new block that `ensure_dir_block` gives to a directory.
use mathlib.Core.Path.{subst}
use xjtu_os_project.Prelude.{
  true, ℕ, ◌+◌, ◌*◌, ◌/◌, ◌%◌, ◌^◌, ◌<◌, ◌≡◌, ◌≢◌, ◌⊎◌, inl, inr, refl, ap, sym, ◌∙◌, List, Option,
  none, some, Bool-cases, ◌==◌, arith, length, get_or, set, get_or-set_self, get_or-set_ne,
}
use xjtu_os_project.Ext2.Bytes.{zero_block, slice}
use xjtu_os_project.Ext2.State.{Inode, Fs, Result, ok, err, ◌>>=◌, ◌>>◌, ignore, ts_now}
use xjtu_os_project.Ext2.Dev.Laws.{IsMounted, IsMounted-same, wrote, dev_write_block_lem}
use xjtu_os_project.Ext2.Bitmap.{bit_at, alloc_block, blk_data_start}
use xjtu_os_project.Ext2.Bitmap.Scan.{IsFull}
use xjtu_os_project.Ext2.Bitmap.Alloc.{BlockAllocated, alloc_block_lem}
use xjtu_os_project.Ext2.Map.{new_block}
use xjtu_os_project.Ext2.Map.Fresh.{bitmap_of, IsFresh, NewBlock, new_block_lem}
use xjtu_os_project.Ext2.Dir.{dirent_size, entry_block, entry_off, new_dir_block}
use xjtu_os_project.Ext2.Dir.Keeping.{IsSince, IsFrom}
use xjtu_os_project.Ext2.Dir.Blocks.{slot_block, slot, IsBlocks}

-- The inode with block `b` as its direct block `bn`.
abbrev pub with_block : Inode → ℕ → ℕ → Fs → Inode
with_block i bn b u = record i {
  direct = set i.direct bn b;
  blocks = (i.blocks + 1) % 2 ^ 32;
  ctime = u.clock u.calls % 2 ^ 32;
}

abbrev pub ticked : Fs → Fs
ticked u = record u { calls = u.calls + 1 }

-- Undefined only where the bitmap is full; else a fresh block is entered.
pub data Grown (i : Inode) (bn : ℕ) (s : Fs) : Option (Result (Inode × List ℕ) × Fs) → Type 0 where
  full : IsFull (bitmap_of s) blk_data_start 4096 → Grown i bn s none
  grown :
      {b : ℕ} {u : Fs}
      → IsFresh s b u
      → IsSince s u
      → Grown i bn s (some (ok (with_block i bn b u, zero_block), ticked u))

new_block_run :
    (s : Fs) (k : ℕ) (u : Fs)
    → alloc_block s ≡ some (ok k, u)
    → u.g_dev ≡ true
    → k < 4096
    → new_block s ≡ some (ok k, wrote k zero_block u)
unfolding new_block
new_block_run s k u e open_ h =
    rw (e, ◌>>=◌, ◌>>◌, ignore, dev_write_block_lem zero_block k u open_ (omega arith)) refl

IsFresh-IsSince :
    {s u : Fs} {b : ℕ}
    → IsFresh s b u
    → ((c : ℕ) → 4 < c → c ≢ b → u.disk.content c ≡ s.disk.content c)
    → IsSince s u
IsFresh-IsSince {s} {u} {b} f kept = record {
  table = λ c h l. kept c h (λ e. absurd (omega (arith, f.lo)));
  data_blocks = λ c h t. f.others c h (λ e. absurd (clash c t e));
  taken = λ c t. ground (arith, f.bits c);
  one_bit = (b, λ c ne. ground (arith, f.bits c));
}
  where
    clash : (c : ℕ) → bit_at (bitmap_of s) c ≡ 1 → c ≢ b
    clash c t e =
        let no : ◌≡◌ {A = ℕ} 1 0 = sym t ∙ (ap (bit_at (bitmap_of s)) e ∙ f.was_free) in
        absurd (omega (arith, no))

growing_from :
    (i : Inode) (bn : ℕ) (s : Fs) (r : Option (Result ℕ × Fs))
    → IsMounted s
    → alloc_block s ≡ r
    → BlockAllocated s r
    → NewBlock s (new_block s)
    → Grown i bn s (new_dir_block i bn s)
unfolding new_dir_block ts_now
growing_from i bn s none m e a f = rw (e, ◌>>=◌) (full a)
growing_from i bn s (some (err _, t)) m e a f = absurd a
growing_from i bn s (some (ok k, u)) m e (lo, hi, rest, taken, sb, gd) f =
    rw
      (
        e,
        ◌>>=◌,
        ◌>>◌,
        ignore,
        dev_write_block_lem zero_block k u taken.mounted.opened (omega arith),
      )
      (let fresh = subst (NewBlock s) (new_block_run s k u e taken.mounted.opened hi) f in
        grown fresh
          (IsFresh-IsSince fresh (λ b h ne. ground (arith, taken.others b, m.block_bitmap))))

pub new_dir_block-Grown :
    (i : Inode) (bn : ℕ) (s : Fs) → IsMounted s → Grown i bn s (new_dir_block i bn s)
new_dir_block-Grown i bn s m =
    growing_from i bn s _ m refl (alloc_block_lem s m) (new_block_lem s m)

module _ {direct : List ℕ} {n : ℕ} {s : Fs} (d : IsBlocks direct n s) (len : length direct ≡ 10)
    (at : n % 8 ≡ 0) (small : n < 80) {b : ℕ} {u : Fs} (f : IsFresh s b u) where
  longer : List ℕ
  longer = set direct (n / 8) b

  block_cases :
      (c : ℕ)
      → c * 8 < n + 1
      → ((c ≡ n / 8) × (get_or longer c 0 ≡ b))
        ⊎ ((c * 8 < n) × (get_or longer c 0 ≡ get_or direct c 0))
  unfolding longer
  block_cases c h = elim (Bool-cases (c == n / 8)) [
    | inl same ↦
        let e : c ≡ n / 8 = ground arith in
        inl (
          e,
          ap (λ x. get_or longer x 0) e ∙ get_or-set_self direct (n / 8) b 0 (omega (arith, len)),
        )
    | inr other ↦
        let ne : c ≢ n / 8 = ground arith in
        inr (omega (arith, at), get_or-set_ne direct (n / 8) c b 0 (λ e. ne (sym e)))
  ]

  other_block : (c : ℕ) → c * 8 < n → b ≢ get_or direct c 0
  other_block c h e =
      let clash : ◌≡◌ {A = ℕ} 0 1 = sym f.was_free ∙ (ap (bit_at (bitmap_of s)) e ∙ d.taken c h) in
      absurd (omega (arith, clash))

  one_block :
      (c c' : ℕ)
      → ((c ≡ n / 8) × (get_or longer c 0 ≡ b))
        ⊎ ((c * 8 < n) × (get_or longer c 0 ≡ get_or direct c 0))
      → ((c' ≡ n / 8) × (get_or longer c' 0 ≡ b))
        ⊎ ((c' * 8 < n) × (get_or longer c' 0 ≡ get_or direct c' 0))
      → get_or longer c 0 ≡ get_or longer c' 0
      → c ≡ c'
  one_block c c' (inl (e, q)) (inl (e', q')) same = e ∙ sym e'
  one_block c c' (inl (e, q)) (inr (h', q')) same = absurd (other_block c' h' (sym q ∙ (same ∙ q')))
  one_block c c' (inr (h, q)) (inl (e', q')) same =
      absurd (other_block c h (sym q' ∙ (sym same ∙ q)))
  one_block c c' (inr (h, q)) (inr (h', q')) same = d.distinct c c' h h' (sym q ∙ (same ∙ q'))

  pub grown-IsBlocks : IsBlocks (set direct (n / 8) b) (n + 1) (ticked u)
  unfolding longer
  grown-IsBlocks = record {
    mounted = IsMounted-same f.mounted refl refl refl refl refl refl refl;
    room = omega arith;
    lo = λ c h. elim (block_cases c h) [ inl (e, q) ↦ rw q f.lo | inr (h', q) ↦ rw q (d.lo c h') ];
    hi = λ c h. elim (block_cases c h) [ inl (e, q) ↦ rw q f.hi | inr (h', q) ↦ rw q (d.hi c h') ];
    taken = λ c h. elim (block_cases c h) [
      | inl (e, q) ↦ rw q (ground (arith, f.bits b))
      | inr (h', q) ↦ rw q (ground (arith, f.bits (get_or direct c 0), d.taken c h'))
    ];
    distinct = λ c c' h h' e. one_block c c' (block_cases c h) (block_cases c' h') e;
  }

  -- The entries that were there, and the block of the next one.
  pub grown_slot : (j : ℕ) → j < n → slot (set direct (n / 8) b) (ticked u) j ≡ slot direct s j
  unfolding longer
  grown_slot j h = elim (block_cases (entry_block j) (omega arith)) [
    | inl (e, q) ↦ absurd (omega (arith, at))
    | inr (h', q) ↦ ap (slice (entry_off j) dirent_size) (
        ap u.disk.content q
        ∙ f.others (get_or direct (entry_block j) 0) (d.lo (entry_block j) h')
            (λ e. other_block (entry_block j) h' (sym e)))
  ]

  pub grown_block : slot_block (set direct (n / 8) b) (ticked u) n ≡ zero_block
  unfolding longer
  grown_block = elim (block_cases (entry_block n) (omega arith)) [
    | inl (e, q) ↦ ap u.disk.content q ∙ f.zeroed
    | inr (h', q) ↦ absurd (omega (arith, at))
  ]

  -- Its blocks are those that were there, and one that was free.
  pub grown-IsFrom : IsFrom direct n s (set direct (n / 8) b) (n + 1)
  unfolding longer
  grown-IsFrom c h = elim (block_cases c h) [
    | inl (e, q) ↦ inr (ap (bit_at (bitmap_of s)) q ∙ f.was_free)
    | inr (h', q) ↦ inl (h', q)
  ]
