-- ===== src/Ext2/Dir/Lookup.antt =====
-- project3/src/dir.c: `dir_lookup` finds what is in the list of entries.
use xjtu_os_project.Prelude.{ℕ, ◌+◌, ◌≡◌, refl, ap, ◌∙◌, List, Option, none, some, arith, get_or}
use xjtu_os_project.Ext2.State.{Inode, Dirent, Fs, Result, ok, err, enoent, ◌>>=◌}
use xjtu_os_project.Ext2.Dir.{found_ino, dir_lookup}
use xjtu_os_project.Ext2.Dir.Slots.{
  unused, IsDirectory, entry_at, slot_named, slot_named-IsNamed, found_at, search_lem,
  read_dir_inode_lem,
}

-- The inode number of an entry.
abbrev pub ino_at : List Dirent → Option ℕ → Result ℕ
ino_at es none = err enoent
ino_at es (some k) = ok (get_or es k unused).ino

module _ {dir : ℕ} {din : Inode} {es : List Dirent} {s : Fs} (d : IsDirectory dir din es s)
    (name : List ℕ) where
  found_lem :
      (o : Option ℕ)
      → slot_named name es ≡ o
      → found_ino (found_at din s 0 o) s ≡ some (ino_at es o, s)
  found_lem none e = refl
  found_lem (some k) e =
      let (h, n) = slot_named-IsNamed name es k e in
      ap (λ j. some (ok (entry_at din s j).ino, s)) {x = 0 + k} {y = k} (omega arith)
      ∙ ap (λ de. some (ok de.ino, s)) (d.entries k h)

  -- In a directory with the entries `es`, `dir_lookup` of a name returns the inode number of the first
  -- used entry with that name, or FS_ENOENT if there is none, and changes nothing.
  pub dir_lookup_lem : dir_lookup dir name s ≡ some (ino_at es (slot_named name es), s)
  unfolding dir_lookup
  dir_lookup_lem =
      rw (read_dir_inode_lem d, ◌>>=◌, search_lem d name) (found_lem (slot_named name es) refl)
