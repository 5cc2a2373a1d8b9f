-- ===== src/Ext2/Dir/Roundtrip.antt =====
-- project3/src/dir.c: `dir_lookup` after `dir_add`.
use mathlib.Core.Option
use mathlib.Core.Path.{subst}
use xjtu_os_project.Prelude.{
  ℕ, suc, ◌^◌, ◌<◌, ◌≤◌, ◌≡◌, ◌≢◌, refl, ap, sym, ◌∙◌, List, [], ◌∷◌, ◌++◌, true, false, Bool,
  Option, none, some, if◌then◌else◌, length,
}
use xjtu_os_project.Ext2.Bytes.{IsBytes}
use xjtu_os_project.Ext2.State.{Inode, Dirent, Fs, Result, ok, err, enoent}
use xjtu_os_project.Ext2.Dir.{is_entry, dir_add, dir_lookup}
use xjtu_os_project.Ext2.Dir.Entries.{dirent_of-dirent_bytes}
use xjtu_os_project.Ext2.Dir.Names.{IsName, added, added-IsDirent, is_entry-added}
use xjtu_os_project.Ext2.Dir.Slots.{IsDirectory, slot_named, slot_named-IsNamed}
use xjtu_os_project.Ext2.Dir.Adding.{get_or_front, get_or_last}
use xjtu_os_project.Ext2.Dir.Lookup.{ino_at, dir_lookup_lem}
use xjtu_os_project.Ext2.Dir.Appending.{AddResult, adds}
use xjtu_os_project.Ext2.Dir.Add.{dir_add-AddResult}

-- The place of the first match when one more entry, at place `n`, matches or does not.
abbrev or_last : Option ℕ → Bool → ℕ → Option ℕ
or_last (some k) b n = some k
or_last none true n = some n
or_last none false n = none

up-or_last :
    (o : Option ℕ) (b : Bool) (n : ℕ)
    → Option.map suc (or_last o b n) ≡ or_last (Option.map suc o) b (suc n)
up-or_last (some k) b n = refl
up-or_last none true n = refl
up-or_last none false n = refl

slot_named_append :
    (name : List ℕ) (es : List Dirent) (x : Dirent)
    → slot_named name (es ++ x ∷ []) ≡ or_last (slot_named name es) (is_entry name x) (length es)
unfolding slot_named
slot_named_append name [] x = first (is_entry name x)
  where
    first : (b : Bool) → (if b then some 0 else none) ≡ or_last none b 0
    first true = refl
    first false = refl
slot_named_append name (e ∷ es) x = behind (is_entry name e) (slot_named_append name es x)
  where
    behind :
        (b : Bool)
        → slot_named name (es ++ x ∷ [])
          ≡ or_last (slot_named name es) (is_entry name x) (length es)
        → (if b then some 0 else Option.map suc (slot_named name (es ++ x ∷ [])))
          ≡ or_last
              (if b then some 0 else Option.map suc (slot_named name es))
              (is_entry name x)
              (suc (length es))
    behind true q = refl
    behind false q =
        ap (Option.map suc) q ∙ up-or_last (slot_named name es) (is_entry name x) (length es)

-- What a lookup of `other` returns before and after an entry for `name` has been added.
pub data AfterAdd (name other : List ℕ) (ino : ℕ) : Result ℕ → Result ℕ → Type 0 where
  earlier : {i : ℕ} → AfterAdd name other ino (ok i) (ok i)
  the_new : name ≡ other → AfterAdd name other ino (err enoent) (ok ino)
  still_none : name ≢ other → AfterAdd name other ino (err enoent) (err enoent)

module _ (name other : List ℕ) (ftype ino : ℕ) (is : IsName name) (is' : IsName other)
    (short : length name ≤ 55) (ft : ftype < 256) (used : ino ≢ 0) (in_range : ino < 2 ^ 32) where
  matches_same : is_entry other (added name ftype ino) ≡ true → name ≡ other
  matches_same m = (is_entry-added name other ftype ino is is' short ft used in_range).0 (
      ap (is_entry other) (
        dirent_of-dirent_bytes (added name ftype ino)
          (added-IsDirent name ftype ino short ft in_range))
      ∙ m)

  same_matches : name ≡ other → is_entry other (added name ftype ino) ≡ true
  same_matches e =
      ap (is_entry other) (
        sym (
          dirent_of-dirent_bytes (added name ftype ino)
            (added-IsDirent name ftype ino short ft in_range)))
      ∙ (is_entry-added name other ftype ino is is' short ft used in_range).1 e

  after-AfterAdd :
      (es : List Dirent) (o : Option ℕ) (b : Bool)
      → slot_named other es ≡ o
      → is_entry other (added name ftype ino) ≡ b
      → AfterAdd name other ino
          (ino_at es o)
          (ino_at (es ++ added name ftype ino ∷ []) (or_last o b (length es)))
  after-AfterAdd es (some k) b e m =
      let (h, n) = slot_named-IsNamed other es k e in
      rw (get_or_front es (added name ftype ino) k h) earlier
  after-AfterAdd es none true e m =
      rw (get_or_last es (added name ftype ino)) (the_new (matches_same m))
  after-AfterAdd es none false e m =
      still_none
        (λ q. absurd (let m' : is_entry other (added name ftype ino) ≡ true = same_matches q in cc))

  module _ {dir : ℕ} {din : Inode} {es : List Dirent} {s t : Fs} (d : IsDirectory dir din es s)
      (bytes : IsBytes name) (run : dir_add dir name ftype ino s ≡ some (ok tt, t)) where
    added_result :
        AddResult dir din es (added name ftype ino) s (some (ok tt, t))
        → (r r' : Result ℕ) × (dir_lookup dir other s ≡ some (r, s))
          × (dir_lookup dir other t ≡ some (r', t))
          × AfterAdd name other ino r r'
    added_result (adds d' k) = (
      ino_at es (slot_named other es),
      ino_at (es ++ added name ftype ino ∷ []) (slot_named other (es ++ added name ftype ino ∷ [])),
      dir_lookup_lem d other,
      dir_lookup_lem d' other,
      rw (slot_named_append other es (added name ftype ino)) (
          after-AfterAdd es (slot_named other es) (is_entry other (added name ftype ino)) refl
            refl),
    )

    -- When `dir_add` of a name of at most 55 bytes and an inode other than 0 has succeeded in a directory,
    -- `dir_lookup` of any name that it found before returns the same inode; of that name, if it was not
    -- found before, the new inode; of any other name FS_ENOENT as before.
    pub dir_lookup-dir_add :
        (r r' : Result ℕ) × (dir_lookup dir other s ≡ some (r, s))
        × (dir_lookup dir other t ≡ some (r', t))
        × AfterAdd name other ino r r'
    dir_lookup-dir_add = added_result (
        subst (AddResult dir din es (added name ftype ino) s) run
          (dir_add-AddResult d name ftype ino bytes short ft in_range))
