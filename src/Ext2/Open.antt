-- ===== src/Ext2/Open.antt =====
-- project3/src/file.c: `fs_open`, `fs_close`, `fs_seek` and the table of open files. A file
-- descriptor is an `int`.
use xjtu_os_project.Prelude.{
  ℕ, suc, ◌-◌, ◌%◌, ◌^◌, Bool, true, false, ◌&&◌, ◌||◌, List, [], ◌∷◌, Option, none, some,
  if◌then◌else◌, ltb, leb, ◌==◌, take, get_or, set, length, ℤ, pos, negsuc,
}
use xjtu_os_project.Ext2.State.{
  OpenFile, Fs, Result, fs_err, eperm, ebadf, ok, err, M, pure, fail, ◌>>=◌, ◌>>◌, get, attempt,
  or_else, ts_now,
}
use xjtu_os_project.Ext2.Bitmap.{alloc_inode}
use xjtu_os_project.Ext2.Inode.{zero_inode, read_inode, write_inode}
use xjtu_os_project.Ext2.Dir.{name_max_len, namei, dir_add}
use xjtu_os_project.Ext2.Map.{perm_can_read, perm_can_write}

abbrev pub max_open : ℕ
max_open = 64

abbrev pub mode_file : ℕ
mode_file = 0o100644

abbrev pub ft_reg : ℕ
ft_reg = 1

-- `strchr(mode, 'w') != NULL`
unfoldable pub has_w : List ℕ → Bool
has_w [] = false
has_w (c ∷ mode) = c == b'w' || has_w mode

-- `strrchr(path, '/')`: what stands in front of the last slash, and what stands behind it.
abbrev pub in_front : ℕ → Option (List ℕ × List ℕ) → List ℕ → Option (List ℕ × List ℕ)
in_front c (some (parent, leaf)) path = some (c ∷ parent, leaf)
in_front c none path = if c == b'/' then some ([], path) else none

unfoldable pub strrchr_slash : List ℕ → Option (List ℕ × List ℕ)
strrchr_slash [] = none
strrchr_slash (c ∷ path) = in_front c (strrchr_slash path) path

abbrev pub or_root : List ℕ → List ℕ
or_root [] = b'/' ∷ []
or_root (c ∷ parent) = c ∷ parent

-- The directory of a new file.
unfoldable pub parent_dir : Option (List ℕ × List ℕ) → M ℕ
parent_dir none s = some (ok s.g_cwd, s)
parent_dir (some (parent, leaf)) s =
    if leb 256 (length parent)
    then some (err fs_err, s)
    else or_else (namei (or_root parent)) fs_err s

abbrev pub leaf_name : List ℕ → Option (List ℕ × List ℕ) → List ℕ
leaf_name path none = take (name_max_len - 1) path
leaf_name path (some (parent, leaf)) = take (name_max_len - 1) leaf

unfoldable pub create_file : List ℕ → M ℕ
unfolding parent_dir strrchr_slash
create_file path = do
  dir ← parent_dir (strrchr_slash path)
  nino ← alloc_inode
  s ← get
  ctime ← ts_now
  mtime ← ts_now
  atime ← ts_now
  or_else
      (write_inode nino (record zero_inode {
        mode = mode_file;
        links = 1;
        uid = s.g_uid % 2 ^ 16;
        ctime = ctime;
        mtime = mtime;
        atime = atime;
      }))
      fs_err
  or_else (dir_add dir (leaf_name path (strrchr_slash path)) ft_reg nino) fs_err
  pure nino

unfoldable pub check_open : Bool → ℕ → M ℕ
unfolding perm_can_read perm_can_write
check_open writable ino = do
  i ← or_else (read_inode ino) fs_err
  s ← get
  if (if writable then perm_can_write i s.g_uid else perm_can_read i s.g_uid)
      then pure ino
      else fail eperm

unfoldable pub find_or_create : List ℕ → Bool → Result ℕ → M ℕ
unfolding create_file check_open
find_or_create path writable (ok ino) = check_open writable ino
find_or_create path true (err e) = create_file path
find_or_create path false (err e) = fail e

abbrev pub later : Option ℕ → Option ℕ
later none = none
later (some n) = some (suc n)

unfoldable pub free_slot : List OpenFile → Option ℕ
free_slot [] = none
free_slot (f ∷ fs) = if f.used then later (free_slot fs) else some 0

unfoldable pub take_slot : ℕ → Bool → Option ℕ → M ℕ
take_slot ino writable none s = some (err fs_err, s)
take_slot ino writable (some fd) s = some (
  ok fd,
  record s {
    g_ofile = set s.g_ofile fd (record { used = true; ino = ino; offset = 0; writable = writable });
  },
)

unfoldable pub fs_open : List ℕ → List ℕ → M ℕ
unfolding has_w find_or_create take_slot free_slot
fs_open path mode = do
  r ← attempt (namei path)
  ino ← find_or_create path (has_w mode) r
  s ← get
  take_slot ino (has_w mode) (free_slot s.g_ofile)

abbrev pub no_file : OpenFile
no_file = record { used = false; ino = 0; offset = 0; writable = false }

-- `fd<0 || fd>=MAX_OPEN || !g_ofile[fd].used` refuses.
unfoldable pub slot_of : ℤ → Fs → Option ℕ
slot_of (negsuc n) s = none
slot_of (pos n) s = if ltb n max_open && (get_or s.g_ofile n no_file).used then some n else none

abbrev pub update_slot : ℕ → (OpenFile → OpenFile) → Fs → Fs
update_slot n f s = record s { g_ofile = set s.g_ofile n (f (get_or s.g_ofile n no_file)) }

unfoldable pub fs_close : ℤ → M (Unit {0})
unfolding slot_of
fs_close fd s = elim (slot_of fd s) [
  | none ↦ some (err ebadf, s)
  | some n ↦ some (ok tt, update_slot n (λ f. record f { used = false }) s)
]

abbrev pub seek_offset : ℤ → ℕ
seek_offset (pos n) = n
seek_offset (negsuc n) = 0

unfoldable pub fs_seek : ℤ → ℤ → M (Unit {0})
unfolding slot_of
fs_seek fd off s = elim (slot_of fd s) [
  | none ↦ some (err ebadf, s)
  | some n ↦ some (ok tt, update_slot n (λ f. record f { offset = seek_offset off }) s)
]
