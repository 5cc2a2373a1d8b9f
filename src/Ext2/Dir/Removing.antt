-- ===== src/Ext2/Dir/Removing.antt =====
-- project3/src/dir.c: `dir_remove` clears the entry that it finds.
use mathlib.Core.Path.{subst}
use xjtu_os_project.Prelude.{
  ℕ, ◌+◌, ◌*◌, ◌<◌, ◌≡◌, ◌≢◌, ◌%◌, ◌^◌, inl, inr, Bool-cases, ◌==◌, refl, ap, sym, ◌∙◌, List,
  Option, none, some, arith, length, get_or, set, replicate, length-set, get_or-set_self,
  get_or-set_ne,
}
use xjtu_os_project.Ext2.Bytes.Laws.{replicate-IsBytes}
use xjtu_os_project.Ext2.State.{
  Inode, Dirent, Fs, Result, ok, err, enoent, ◌>>=◌, or_else, ignore, ts_now,
}
use xjtu_os_project.Ext2.Dev.Laws.{dev_write_block_lem}
use xjtu_os_project.Ext2.Inode.Bytes.{IsInode}
use xjtu_os_project.Ext2.Dir.{dirent_size, dirent_of, erase_entry, dir_remove}
use xjtu_os_project.Ext2.Dir.Blocks.{
  block_no, first_hi, with_inode_reads, with_inode_run, IsBlocks, slot, with_slot,
  with_slot-IsBlocks, slot_written, slot_kept, with_inode, with_inode-IsBlocks, slot-with_inode,
}
use xjtu_os_project.Ext2.Dir.Slots.{
  unused, IsDirectory, entry_at, block_of, slot_named, slot_named-IsNamed, found_at, search_lem,
}

abbrev pub stamped : Inode → Fs → Inode
stamped i s = record i { mtime = s.clock s.calls % 2 ^ 32 }

pub stamped-IsInode : (i : Inode) (s : Fs) → IsInode i → IsInode (stamped i s)
stamped-IsInode i s v = record {
  mode = v.mode;
  uid = v.uid;
  size = v.size;
  atime = v.atime;
  mtime = omega arith;
  ctime = v.ctime;
  gid = v.gid;
  links = v.links;
  blocks = v.blocks;
  direct = v.direct;
  direct_length = v.direct_length;
  indirect1 = v.indirect1;
  reserve = v.reserve;
  reserve_length = v.reserve_length;
}

module _ {dir : ℕ} {din : Inode} {es : List Dirent} {s : Fs} (d : IsDirectory dir din es s) (k : ℕ)
    (h : k < length es) where
  cleared : Fs
  cleared = with_slot d.blocks k h (replicate 64 0) refl (replicate-IsBytes 64)

  cleared-IsBlocks : IsBlocks din.direct (length es) cleared
  unfolding cleared
  cleared-IsBlocks = with_slot-IsBlocks d.blocks k h (replicate 64 0) refl (replicate-IsBytes 64)

  removed : Fs
  removed =
      with_inode cleared-IsBlocks dir d.lo d.hi (stamped din s) (stamped-IsInode din s d.inode)

  removed_entry :
      (j : ℕ)
      → j < length es
      → entry_at (stamped din s) removed j ≡ get_or (set es k unused) j unused
  unfolding removed cleared dirent_of
  removed_entry j h' =
      ap dirent_of (
        slot-with_inode cleared-IsBlocks dir d.lo d.hi (stamped din s)
          (stamped-IsInode din s d.inode) j h')
      ∙ elim (Bool-cases (j == k)) [
        | inl same ↦
            (let e : j ≡ k = ground arith in
              ap (λ i. dirent_of (slot din.direct cleared i)) e
              ∙ (ap dirent_of
                    (slot_written d.blocks k h (replicate 64 0) refl (replicate-IsBytes 64))
                  ∙ sym (
                      ap (λ i. get_or (set es k unused) i unused) e
                      ∙ get_or-set_self es k unused unused h)))
        | inr other ↦
            (let ne : j ≢ k = ground arith in
              ap dirent_of
                (slot_kept d.blocks k h (replicate 64 0) refl (replicate-IsBytes 64) j h' ne)
              ∙ (d.entries j h' ∙ sym (get_or-set_ne es k j unused unused (λ e. ne (sym e)))))
      ]

  removed-IsDirectory : IsDirectory dir (stamped din s) (set es k unused) removed
  unfolding removed
  removed-IsDirectory = record {
    blocks =
        subst (λ n. IsBlocks din.direct n removed) (sym (length-set es k unused))
          (with_inode-IsBlocks cleared-IsBlocks dir d.lo d.hi (stamped din s)
            (stamped-IsInode din s d.inode));
    lo = d.lo;
    hi = d.hi;
    inode = stamped-IsInode din s d.inode;
    reads =
        with_inode_reads cleared-IsBlocks dir d.lo d.hi (stamped din s)
          (stamped-IsInode din s d.inode);
    is_directory = d.is_directory;
    size = d.size ∙ ap (◌*◌ dirent_size) (sym (length-set es k unused));
    no_more = λ b l. d.no_more b (omega (arith, length-set es k unused));
    entries = λ j l. removed_entry j (omega (arith, length-set es k unused));
  }

  erase_entry_run :
      erase_entry dir din (some (k, entry_at din s k, block_of din s k)) s ≡ some (ok tt, removed)
  unfolding erase_entry removed cleared ts_now
  erase_entry_run =
      rw
        (
          dev_write_block_lem _ (block_no din.direct k) s d.blocks.mounted.opened
              (omega (arith, first_hi d.blocks k h (replicate 64 0) refl (replicate-IsBytes 64))),
          or_else,
          ◌>>=◌,
          ignore,
          with_inode_run cleared-IsBlocks dir d.lo d.hi (stamped din s)
              (stamped-IsInode din s d.inode),
        )
        refl

-- What `dir_remove` does to a directory: without a used entry of that name it returns FS_ENOENT and
-- changes nothing; else it succeeds, and the directory has the same entries with that one cleared.
pub data RemoveResult (dir : ℕ) (din : Inode) (es : List Dirent) (s : Fs)
    : Option ℕ → Option (Result (Unit {0}) × Fs) → Type 0 where
  not_there : RemoveResult dir din es s none (some (err enoent, s))
  removes :
      {k : ℕ} {t : Fs}
      → IsDirectory dir (stamped din s) (set es k unused) t
      → RemoveResult dir din es s (some k) (some (ok tt, t))

module _ {dir : ℕ} {din : Inode} {es : List Dirent} {s : Fs} (d : IsDirectory dir din es s)
    (name : List ℕ) where
  erase_entry-RemoveResult :
      (o : Option ℕ)
      → slot_named name es ≡ o
      → RemoveResult dir din es s o (erase_entry dir din (found_at din s 0 o) s)
  unfolding erase_entry
  erase_entry-RemoveResult none e = not_there
  erase_entry-RemoveResult (some k) e =
      let (h, n) = slot_named-IsNamed name es k e in
      subst (RemoveResult dir din es s (some k))
        (sym (
          ap (λ j. erase_entry dir din (some (j, entry_at din s j, block_of din s j)) s) {x = 0 + k}
            {y = k} (omega arith)
          ∙ erase_entry_run d k h))
        (removes (removed-IsDirectory d k h))

  -- In a directory with the entries `es`, `dir_remove` of a name that no used entry of `es` has returns
  -- FS_ENOENT and changes nothing; else it succeeds, and the directory then has the entries `es` with
  -- the first used entry of that name cleared.
  pub dir_remove-RemoveResult :
      RemoveResult dir din es s (slot_named name es) (dir_remove dir name s)
  unfolding dir_remove
  dir_remove-RemoveResult =
      rw (d.reads, or_else, ◌>>=◌, search_lem d name)
        (erase_entry-RemoveResult (slot_named name es) refl)
