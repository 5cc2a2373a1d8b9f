-- ===== src/Ext2/Dir/Slots.antt =====
-- project3/src/dir.c: a directory as the list of its entries, used or not, and the search through it.
use mathlib.Core.Path.{subst}
use mathlib.Core.Option
use xjtu_os_project.Prelude.{
  ℕ, suc, ◌+◌, ◌*◌, ◌/◌, ◌<◌, ◌≤◌, ◌≡◌, refl, ap, ◌∙◌, Bool, true, false, List, [], ◌∷◌, Option,
  none, some, arith, length, get_or, replicate, if◌then◌else◌,
}
use xjtu_os_project.Ext2.State.{Inode, Dirent, Fs, ok, or_else, ◌>>=◌}
use xjtu_os_project.Ext2.Dev.Laws.{dev_read_block_lem}
use xjtu_os_project.Ext2.Bitmap.{max_inodes}
use xjtu_os_project.Ext2.Inode.{read_inode}
use xjtu_os_project.Ext2.Inode.Bytes.{IsInode}
use xjtu_os_project.Ext2.Dir.Blocks.{block_no, slot_block, slot, IsBlocks}
use xjtu_os_project.Ext2.Dir.{
  dirent_size, dirent_of, is_dir, is_entry, entry_block, read_dir_block, find_entry, read_dir_inode,
}

-- An entry that is not in use, as `dir_remove` leaves it.
abbrev pub unused : Dirent
unused = record { ino = 0; reclen = 0; file_type = 0; name = replicate 56 0 }

abbrev pub entry_at : Inode → Fs → ℕ → Dirent
entry_at din s k = dirent_of (slot din.direct s k)

abbrev pub block_of : Inode → Fs → ℕ → List ℕ
block_of din s k = slot_block din.direct s k

-- Inode `dir` is a directory, its fields are `din`, and its entries, used or not, are `es`; no block is
-- entered in the inode but those that hold them.
pub record IsDirectory (dir : ℕ) (din : Inode) (es : List Dirent) (s : Fs) : Type 0 where
  pub blocks : IsBlocks din.direct (length es) s
  pub lo : 1 ≤ dir
  pub hi : dir ≤ max_inodes
  pub inode : IsInode din
  pub reads : read_inode dir s ≡ some (ok din, s)
  pub is_directory : is_dir din.mode ≡ true
  pub size : din.size ≡ dirent_size * length es
  pub no_more : (b : ℕ) → length es ≤ b * 8 → get_or din.direct b 0 ≡ 0
  pub entries : (k : ℕ) → k < length es → entry_at din s k ≡ get_or es k unused

-- The first used entry with the name.
unfoldable pub slot_named : List ℕ → List Dirent → Option ℕ
slot_named name [] = none
slot_named name (de ∷ es) =
    let rest = Option.map suc (slot_named name es) in if is_entry name de then some 0 else rest

-- Entry `k` is there, and has the name.
abbrev pub IsNamed : List ℕ → List Dirent → ℕ → Type 0
IsNamed name es k = (k < length es) × (is_entry name (get_or es k unused) ≡ true)

cons-IsNamed :
    (name : List ℕ) (de : Dirent) (es : List Dirent) (k : ℕ) (b : Bool)
    → is_entry name de ≡ b
    → (if b then some 0 else Option.map suc (slot_named name es)) ≡ some k
    → ((j : ℕ) → slot_named name es ≡ some j → IsNamed name es j)
    → IsNamed name (de ∷ es) k
cons-IsNamed name de es k true e q ih =
    subst (IsNamed name (de ∷ es)) (Option.some-injective 0 k q) (omega arith, e)
cons-IsNamed name de es k false e q ih =
    let (j, at, up) = (Option.map-eq-some_iff suc (slot_named name es)).0 q in
    let (h, n) = ih j at in subst (IsNamed name (de ∷ es)) up (omega arith, n)

-- What the search finds is there, and has the name.
pub slot_named-IsNamed :
    (name : List ℕ) (es : List Dirent) (k : ℕ) → slot_named name es ≡ some k → IsNamed name es k
unfolding slot_named
slot_named-IsNamed name [] k e = absurd (Option.none-ne-some k e)
slot_named-IsNamed name (de ∷ es) k e =
    cons-IsNamed name de es k (is_entry name de) refl e (slot_named-IsNamed name es)

-- What `find_entry` finds there, when it starts at entry `i`.
abbrev pub found_at : Inode → Fs → ℕ → Option ℕ → Option (ℕ × Dirent × List ℕ)
found_at din s i none = none
found_at din s i (some j) = some (i + j, entry_at din s (i + j), block_of din s (i + j))

shift :
    (din : Inode) (s : Fs) (i : ℕ) (o : Option ℕ)
    → found_at din s (i + 1) o ≡ found_at din s i (Option.map suc o)
shift din s i none = refl
shift din s i (some j) =
    ap (λ k. some (k, entry_at din s k, block_of din s k)) {x = i + 1 + j} {y = i + suc j}
      (omega arith)

module _ (din : Inode) (name : List ℕ) (s : Fs) where
  -- The entries from `i` on are `es`, and their blocks can be read.
  abbrev IsListed : ℕ → List Dirent → Type 0
  IsListed i es =
      (k : ℕ)
      → k < length es
      → (read_dir_block din (entry_block (i + k)) s ≡ some (ok (block_of din s (i + k)), s))
        × (entry_at din s (i + k) ≡ get_or es k unused)

  find_here :
      (de : Dirent) (es : List Dirent) (i : ℕ) (b : Bool)
      → is_entry name de ≡ b
      → read_dir_block din (entry_block i) s ≡ some (ok (block_of din s i), s)
      → entry_at din s i ≡ de
      → find_entry din name (length es) (i + 1) s
        ≡ some (ok (found_at din s (i + 1) (slot_named name es)), s)
      → find_entry din name (suc (length es)) i s
        ≡ some (ok (found_at din s i (slot_named name (de ∷ es))), s)
  unfolding find_entry slot_named
  find_here de es i true e r q ih =
      rw (find_entry, r, q, e)
        (ap (λ j. some (ok (some (j, entry_at din s j, block_of din s j)), s)) {x = i} {y = i + 0}
          (omega arith))
  find_here de es i false e r q ih =
      rw (find_entry, r, q, e, ih) (ap (λ o. some (ok o, s)) (shift din s i (slot_named name es)))

  pub find_entry_lem :
      (es : List Dirent) (i : ℕ)
      → IsListed i es
      → find_entry din name (length es) i s ≡ some (ok (found_at din s i (slot_named name es)), s)
  unfolding find_entry slot_named
  find_entry_lem [] i h = refl
  find_entry_lem (de ∷ es) i h =
      let (r, q) = h 0 (omega arith) in
      find_here de es i (is_entry name de) refl
        (subst (λ j. read_dir_block din (entry_block j) s ≡ some (ok (block_of din s j), s))
          {x = i + 0} {y = i} (omega arith) r)
        (subst (λ j. entry_at din s j ≡ de) {x = i + 0} {y = i} (omega arith) q)
        (find_entry_lem es (i + 1) (λ k lt.
          subst
            (λ j.
              (read_dir_block din (entry_block j) s ≡ some (ok (block_of din s j), s))
              × (entry_at din s j ≡ get_or es k unused))
            {x = i + suc k} {y = i + 1 + k} (omega arith) (h (suc k) (omega arith))))

module _ {dir : ℕ} {din : Inode} {es : List Dirent} {s : Fs} (d : IsDirectory dir din es s) where
  -- The blocks of a directory can be read.
  pub read_dir_block_lem :
      (k : ℕ)
      → k < length es
      → read_dir_block din (entry_block k) s ≡ some (ok (block_of din s k), s)
  unfolding read_dir_block
  read_dir_block_lem k h =
      let lo = d.blocks.lo (entry_block k) (omega arith) in
      let hi = d.blocks.hi (entry_block k) (omega arith) in
      ground (
        arith,
        d.blocks.room,
        dev_read_block_lem (block_no din.direct k) s d.blocks.mounted (omega arith),
      )

  pub search_lem :
      (name : List ℕ)
      → find_entry din name (din.size / dirent_size) 0 s
        ≡ some (ok (found_at din s 0 (slot_named name es)), s)
  search_lem name =
      ap (λ n. find_entry din name n 0 s) {x = din.size / dirent_size} {y = length es}
        (omega (arith, d.size))
      ∙ find_entry_lem din name s es 0 (λ k h.
        subst
          (λ j.
            (read_dir_block din (entry_block j) s ≡ some (ok (block_of din s j), s))
            × (entry_at din s j ≡ get_or es k unused))
          {x = k} {y = 0 + k} (omega arith) (read_dir_block_lem k h, d.entries k h))

  pub read_dir_inode_lem : read_dir_inode dir s ≡ some (ok din, s)
  unfolding read_dir_inode
  read_dir_inode_lem = rw (d.reads, or_else, ◌>>=◌, d.is_directory) refl
