-- ===== src/Ext2/State.antt =====
-- project3/include/fs.h and src/dev.c: the structures, the global variables and the result codes,
-- and the monad in which the functions are written. `none` is undefined behaviour: an access out of
-- bounds or a read of a variable that was never set.
use xjtu_os_project.Prelude.{ℕ, ◌+◌, ◌%◌, ◌^◌, Bool, List, Option, none, some}

-- `superblock_t`, with the four bytes that C leaves free in front of `mount_time`
pub record Superblock : Type 0 where
  pub magic : ℕ
  pub sb_block_size : ℕ
  pub blocks_count : ℕ
  pub inodes_count : ℕ
  pub free_blocks : ℕ
  pub free_inodes : ℕ
  pub first_data_block : ℕ
  pub inode_table_start : ℕ
  pub block_bitmap_blk : ℕ
  pub inode_bitmap_blk : ℕ
  pub root_ino : ℕ
  pub gap : ℕ
  pub mount_time : ℕ
  pub write_time : ℕ

-- `group_desc_t`
pub record GroupDesc : Type 0 where
  pub block_bitmap : ℕ
  pub inode_bitmap : ℕ
  pub inode_table : ℕ
  pub free_blocks_count : ℕ
  pub free_inodes_count : ℕ

-- `inode_t`
pub record Inode : Type 0 where
  pub mode : ℕ
  pub uid : ℕ
  pub size : ℕ
  pub atime : ℕ
  pub mtime : ℕ
  pub ctime : ℕ
  pub gid : ℕ
  pub links : ℕ
  pub blocks : ℕ
  pub direct : List ℕ
  pub indirect1 : ℕ
  pub reserve : List ℕ

-- `dirent_t`
pub record Dirent : Type 0 where
  pub ino : ℕ
  pub reclen : ℕ
  pub file_type : ℕ
  pub name : List ℕ

-- `ofile_t`
pub record OpenFile : Type 0 where
  pub used : Bool
  pub ino : ℕ
  pub offset : ℕ
  pub writable : Bool

-- The host's file disk.img, in whole blocks. Past its end `content` is zero.
pub record Disk : Type 0 where
  pub present : Bool
  pub blocks : ℕ
  pub content : ℕ → List ℕ

-- The globals. `g_dev` says whether the image is open. Both `dev_write_block(&g_sb, …)` and
-- `dev_read_block(&g_sb, …)` move a whole block, past the end of the structure: `sb_tail` and
-- `gd_tail` are the bytes of memory there. `clock n` is what the n-th call of `time` returns.
pub record Fs : Type 0 where
  pub disk : Disk
  pub g_dev : Bool
  pub g_sb : Superblock
  pub sb_tail : List ℕ
  pub g_gd : GroupDesc
  pub gd_tail : List ℕ
  pub g_ofile : List OpenFile
  pub g_cwd : ℕ
  pub g_uid : ℕ
  pub g_user : List ℕ
  pub clock : ℕ → ℕ
  pub calls : ℕ

-- The negative result codes; `raw n` is a number -n that is none of them.
pub data Errno : Type 0 where
  fs_err enoent eexist enospc enotdir eisdir eperm ebadf : Errno
  raw : ℕ → Errno

-- A result code, or what a function returns or writes through a pointer where it succeeds.
pub data Result {ℓ} (A : Type ℓ) : Type ℓ where
  ok : A → Result A
  err : Errno → Result A

abbrev pub M : Type 0 → Type 0
M A = Fs → Option (Result A × Fs)

abbrev pub pure : {A : Type 0} → A → M A
pure a s = some (ok a, s)

abbrev pub fail : {A : Type 0} → Errno → M A
fail e s = some (err e, s)

abbrev pub undefined : {A : Type 0} → M A
undefined s = none

infixl 5 ◌>>=◌ ◌>>◌
abbrev pub ◌>>=◌ : {A B : Type 0} → M A → (A → M B) → M B
◌>>=◌ m f s = elim (m s) [
  | none ↦ none
  | some (ok a, s') ↦ f a s'
  | some (err e, s') ↦ some (err e, s')
]

abbrev pub ◌>>◌ : {B : Type 0} → M (Unit {0}) → M B → M B
m >> k = m >>= λ _. k

-- The result code as a value, for a caller that does not just hand an error on.
abbrev pub attempt : {A : Type 0} → M A → M (Result A)
attempt m s = elim (m s) [ none ↦ none | some (r, s') ↦ some (ok r, s') ]

-- A call whose result code is thrown away.
abbrev pub ignore : {A : Type 0} → M A → M (Unit {0})
ignore m s = elim (m s) [ none ↦ none | some (r, s') ↦ some (ok tt, s') ]

-- A caller that turns every error into one of its own.
abbrev pub or_else : {A : Type 0} → M A → Errno → M A
or_else m e s = elim (m s) [
  | none ↦ none
  | some (ok a, s') ↦ some (ok a, s')
  | some (err _, s') ↦ some (err e, s')
]

-- A caller that goes on with a buffer which the failed call has not filled.
abbrev pub must : {A : Type 0} → M A → M A
must m s = elim (m s) [ none ↦ none | some (ok a, s') ↦ some (ok a, s') | some (err _, s') ↦ none ]

abbrev pub get : M Fs
get s = some (ok s, s)

abbrev pub modify : (Fs → Fs) → M (Unit {0})
modify f s = some (ok tt, f s)

-- `ts_now` of src/util.c: the time, cut to 32 bits.
unfoldable pub ts_now : M ℕ
ts_now s = some (ok (s.clock s.calls % 2 ^ 32), record s { calls = s.calls + 1 })
