-- ===== src/Ext2/Dir/Appending.antt =====
-- project3/src/dir.c: `dir_add` on every branch.
use xjtu_os_project.Prelude.{
  ◌+◌, inl, ℕ, zero, suc, ◌/◌, ◌%◌, ◌^◌, ◌<◌, ◌≤◌, ◌≡◌, ◌≢◌, inl, inr, refl, ap, ◌∙◌, List, [], ◌∷◌,
  ◌++◌, true, false, Option, none, some, Bool-cases, ◌==◌, leb, arith, length, set, All, length-set,
  get_or-set_ne,
}
use xjtu_os_project.Ext2.Bytes.{IsBytes}
use xjtu_os_project.Ext2.State.{Inode, Dirent, Fs, Result, ok, err, enospc, ◌>>=◌, or_else, must}
use xjtu_os_project.Ext2.Dev.Laws.{dev_read_block_lem}
use xjtu_os_project.Ext2.Bitmap.{blk_data_start}
use xjtu_os_project.Ext2.Bitmap.Scan.{IsFull}
use xjtu_os_project.Ext2.Inode.Bytes.{IsInode}
use xjtu_os_project.Ext2.Map.Fresh.{bitmap_of, IsFresh}
use xjtu_os_project.Ext2.Dir.{
  dirent_bytes, dirent_of, entry_block, new_dir_block, ensure_dir_block, append_entry,
}
use xjtu_os_project.Ext2.Dir.Entries.{IsDirent}
use xjtu_os_project.Ext2.Dir.Blocks.{block_no, slot_block}
use xjtu_os_project.Ext2.Dir.Keeping.{IsSince, IsKept}
use xjtu_os_project.Ext2.Dir.Growing.{
  grown-IsFrom, with_block, ticked, Grown, full, grown, new_dir_block-Grown, grown-IsBlocks,
  grown_slot, grown_block,
}
use xjtu_os_project.Ext2.Dir.Slots.{IsDirectory}
use xjtu_os_project.Ext2.Dir.Adding.{IsReady, put_entry_lem}

-- What `dir_add` does to a directory: undefined only where a new block is needed and the bitmap is full;
-- FS_ENOSPC, with nothing changed, where it has 80 entries; else the entry is put behind the others, and
-- no other inode and no taken block that is not the directory's has changed.
pub data AddResult (dir : ℕ) (din : Inode) (es : List Dirent) (de : Dirent) (s : Fs)
    : Option (Result (Unit {0}) × Fs) → Type 0 where
  bitmap_full :
      length es % 8 ≡ 0 → IsFull (bitmap_of s) blk_data_start 4096 → AddResult dir din es de s none
  no_space : length es ≡ 80 → AddResult dir din es de s (some (err enospc, s))
  adds :
      {din' : Inode} {t : Fs}
      → IsDirectory dir din' (es ++ de ∷ []) t
      → IsKept dir din.direct (length es) s din'.direct (length es + 1) t
      → AddResult dir din es de s (some (ok tt, t))

module _ {dir : ℕ} {din : Inode} {es : List Dirent} {s : Fs} (d : IsDirectory dir din es s) where
  ensure_full :
      length es ≡ 80 → ensure_dir_block din (entry_block (length es)) s ≡ some (err enospc, s)
  unfolding ensure_dir_block
  ensure_full e = ground arith

  ensure_old :
      length es % 8 ≢ 0
      → ensure_dir_block din (entry_block (length es)) s
        ≡ some (ok (din, slot_block din.direct s (length es)), s)
  unfolding ensure_dir_block
  ensure_old ne =
      let lo = d.blocks.lo (entry_block (length es)) (omega (arith, d.blocks.room)) in
      let hi = d.blocks.hi (entry_block (length es)) (omega (arith, d.blocks.room)) in
      rw
        (
          inside,
          present lo,
          dev_read_block_lem (block_no din.direct (length es)) s d.blocks.mounted (omega arith),
          must,
          ◌>>=◌,
        )
        refl
    where
      inside : leb 10 (entry_block (length es)) ≡ false
      inside = ground (arith, d.blocks.room)

      present :
          blk_data_start ≤ block_no din.direct (length es)
          → (block_no din.direct (length es) == 0) ≡ false
      present lo = ground arith

  ensure_new :
      length es % 8 ≡ 0
      → length es < 80
      → ensure_dir_block din (entry_block (length es)) s ≡ new_dir_block din (length es / 8) s
  unfolding ensure_dir_block new_dir_block
  ensure_new e h =
      rw (inside, absent) refl
      ∙ ap (λ bn. new_dir_block din bn s) {x = entry_block (length es)} {y = length es / 8}
          (omega arith)
    where
      inside : leb 10 (entry_block (length es)) ≡ false
      inside = ground arith

      absent : (block_no din.direct (length es) == 0) ≡ true
      absent = ground (arith, d.no_more (entry_block (length es)) (omega (arith, e)))

  old-IsReady : length es % 8 ≢ 0 → IsReady dir din es s
  old-IsReady ne = record {
    blocks = record {
      mounted = d.blocks.mounted;
      room = omega (arith, d.blocks.room);
      lo = λ b h. d.blocks.lo b (omega arith);
      hi = λ b h. d.blocks.hi b (omega arith);
      taken = λ b h. d.blocks.taken b (omega arith);
      distinct = λ b c h h'. d.blocks.distinct b c (omega arith) (omega arith);
    };
    lo = d.lo;
    hi = d.hi;
    inode = d.inode;
    is_directory = d.is_directory;
    size = d.size;
    no_more = λ b h. d.no_more b (omega arith);
    entries = d.entries;
  }

  module _ (at : length es % 8 ≡ 0) (small : length es < 80) {b : ℕ} {u : Fs}
      (f : IsFresh s b u) where
    with_block-IsInode : IsInode (with_block din (length es / 8) b u)
    with_block-IsInode = record {
      mode = d.inode.mode;
      uid = d.inode.uid;
      size = d.inode.size;
      atime = d.inode.atime;
      mtime = d.inode.mtime;
      ctime = omega arith;
      gid = d.inode.gid;
      links = d.inode.links;
      blocks = omega arith;
      direct = set-All din.direct (length es / 8) d.inode.direct;
      direct_length = length-set din.direct (length es / 8) b ∙ d.inode.direct_length;
      indirect1 = d.inode.indirect1;
      reserve = d.inode.reserve;
      reserve_length = d.inode.reserve_length;
    }
      where
        set-All :
            (ws : List ℕ) (k : ℕ) → All (λ w. w < 2 ^ 32) ws → All (λ w. w < 2 ^ 32) (set ws k b)
        set-All [] k h = tt
        set-All (w ∷ ws) zero h = (omega (arith, f.hi), h.1)
        set-All (w ∷ ws) (suc k) h = (h.0, set-All ws k h.1)

    new-IsReady : IsReady dir (with_block din (length es / 8) b u) es (ticked u)
    new-IsReady = record {
      blocks = grown-IsBlocks d.blocks d.inode.direct_length at small f;
      lo = d.lo;
      hi = d.hi;
      inode = with_block-IsInode;
      is_directory = d.is_directory;
      size = d.size;
      no_more = λ c h.
          get_or-set_ne din.direct (length es / 8) c b 0 (λ e. absurd (omega arith))
          ∙ d.no_more c (omega arith);
      entries = λ k h.
          ap dirent_of (grown_slot d.blocks d.inode.direct_length at small f k h) ∙ d.entries k h;
    }

IsSince-refl : (s : Fs) → IsSince s s
IsSince-refl s = record {
  table = λ b h l. refl;
  data_blocks = λ b h t. refl;
  taken = λ b t. t;
  one_bit = (0, λ j ne. refl);
}

ticked-IsSince : {s u : Fs} → IsSince s u → IsSince s (ticked u)
ticked-IsSince g = record {
  table = g.table;
  data_blocks = g.data_blocks;
  taken = g.taken;
  one_bit = g.one_bit;
}

module _ {dir : ℕ} {din : Inode} {es : List Dirent} {s : Fs} (d : IsDirectory dir din es s)
    (de : Dirent) (v : IsDirent de) (len : length (dirent_bytes de) ≡ 64)
    (bs : IsBytes (dirent_bytes de)) where
  append_old : length es % 8 ≢ 0 → AddResult dir din es de s (append_entry dir (length es) de din s)
  unfolding append_entry
  append_old ne =
      let (t, run, done, kept) =
        put_entry_lem (old-IsReady d ne) de v len bs s din.direct (IsSince-refl s)
          (λ c h. inl (omega arith, refl)) (λ q j. refl) in
      rw (ensure_old d ne, or_else, ◌>>=◌, run) (adds done kept)

  append_new :
      (at : length es % 8 ≡ 0) (small : length es < 80) (r : Option (Result (Inode × List ℕ) × Fs))
      → new_dir_block din (length es / 8) s ≡ r
      → Grown din (length es / 8) s r
      → AddResult dir din es de s (append_entry dir (length es) de din s)
  unfolding append_entry
  append_new at small _ e (full f) =
      rw (ensure_new d at small, e, or_else, ◌>>=◌) (bitmap_full at f)
  append_new at small _ e (grown {b} {u} f g) =
      let (t, run, done, kept) =
        put_entry_lem (new-IsReady d at small f) de v len bs s din.direct (ticked-IsSince g)
          (grown-IsFrom d.blocks d.inode.direct_length at small f) (λ q. absurd (q at)) in
      rw
        (
          ensure_new d at small,
          e,
          or_else,
          ◌>>=◌,
          ← grown_block d.blocks d.inode.direct_length at small f,
          run,
        )
        (adds done kept)

  append_full : length es ≡ 80 → AddResult dir din es de s (append_entry dir (length es) de din s)
  unfolding append_entry
  append_full e = rw (ensure_full d e, or_else, ◌>>=◌) (no_space e)

  pub append_entry-AddResult : AddResult dir din es de s (append_entry dir (length es) de din s)
  append_entry-AddResult = elim (Bool-cases (length es == 80)) [
    | inl full_ ↦ append_full (ground arith)
    | inr room ↦ elim (Bool-cases (length es % 8 == 0)) [
      | inl at ↦
          append_new (ground arith) (ground (arith, d.blocks.room)) _ refl
            (new_dir_block-Grown din (length es / 8) s d.blocks.mounted)
      | inr inside ↦ append_old (ground arith)
    ]
  ]
