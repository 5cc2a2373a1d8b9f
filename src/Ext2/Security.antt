-- ===== src/Ext2/Security.antt =====
-- project3/src/security.c: accounts and the session, kept in two text files. `realloc` succeeds; `heap`
-- is what memory from it holds behind the bytes that have been read into it.
pub mod Session
use xjtu_os_project.Prelude.{
  ℕ, zero, suc, ◌-◌, ◌||◌, List, [], ◌∷◌, ◌++◌, Option, none, some, if◌then◌else◌, ltb, ◌==◌, take,
  get_or, length, ℤ, pos, negsuc,
}
use xjtu_os_project.Ext2.State.{
  Inode, Fs, Result, fs_err, eperm, ok, err, M, pure, fail, ◌>>=◌, ◌>>◌, get, modify, ignore,
  attempt, or_else,
}
use xjtu_os_project.Ext2.Bitmap.{lift}
use xjtu_os_project.Ext2.Inode.{read_inode, write_inode}
use xjtu_os_project.Ext2.Dir.{namei}
use xjtu_os_project.Ext2.Open.{no_file, fs_open, fs_close, fs_seek}
use xjtu_os_project.Ext2.Io.{fs_read, fs_write}
use xjtu_os_project.Ext2.Text.{codes, up_to, strcmp_eq, int_bits}
use xjtu_os_project.Ext2.Accounts.{
  max_user_len, newline, show_account, lines_of, find_account, max_account, new_lines, next_uid,
  session_line, parse_session,
}

abbrev pub users_path : List ℕ
users_path = codes "/.users"

abbrev pub session_path : List ℕ
session_path = codes "/.session"

-- A result code that is handed on when the file has been closed.
abbrev pub handed : {A : Type 0} → Result A → M A
handed (ok a) = pure a
handed (err e) = fail e

abbrev pub code_of : {A : Type 0} → Result A → M (Unit {0})
code_of (ok a) = pure tt
code_of (err e) = fail e

abbrev pub ino_of : ℕ → Fs → ℕ
ino_of fd s = (get_or s.g_ofile fd no_file).ino

-- The loop of `read_whole_file`, a read of 4096 bytes a round, up to a read of none. Nothing lies in a
-- file behind its block 137, so `whole_fuel` rounds are enough.
unfoldable pub read_rest : ℕ → ℕ → M (List ℕ)
unfolding fs_read
read_rest zero fd s = none
read_rest (suc fuel) fd s = elim (fs_read (pos fd) 4096 s) [
  | none ↦ none
  | some (err e, s') ↦ some (err e, s')
  | some (ok [], s') ↦ some (ok [], s')
  | some (ok (b ∷ bytes), s') ↦ (read_rest fuel fd >>= λ rest. pure ((b ∷ bytes) ++ rest)) s'
]

abbrev pub whole_fuel : ℕ
whole_fuel = 70657

unfoldable pub read_whole_file : List ℕ → M (List ℕ)
unfolding read_rest fs_open fs_close
read_whole_file path = do
  fd ← fs_open path (codes "r")
  r ← attempt (read_rest whole_fuel fd)
  ignore (fs_close (pos fd))
  handed r

-- `(int32_t)in.size`
abbrev pub to_int32 : ℕ → ℤ
to_int32 n = if ltb n 2147483648 then pos n else negsuc (4294967295 - n)

unfoldable pub append_at : ℕ → List ℕ → Result Inode → M (Unit {0})
append_at fd line (err _) = do ignore (fs_close (pos fd)); fail fs_err
append_at fd line (ok i) = do
  ignore (fs_seek (pos fd) (to_int32 i.size))
  n ← attempt (fs_write (pos fd) line)
  ignore (fs_close (pos fd))
  code_of n

unfoldable pub append_line : List ℕ → List ℕ → M (Unit {0})
unfolding append_at
append_line path line = do
  fd ← fs_open path (codes "w")
  s ← get
  r ← attempt (read_inode (ino_of fd s))
  append_at fd line r

-- What happens to the open file where its inode cannot be written.
abbrev pub or_close : ℕ → Result (Unit {0}) → M (Unit {0})
or_close fd (ok _) = pure tt
or_close fd (err _) = do ignore (fs_close (pos fd)); fail fs_err

-- The size of the open file becomes 0, if its inode can be read; its blocks stay.
unfoldable pub cut_to_zero : ℕ → Result Inode → M (Unit {0})
cut_to_zero fd (err _) = pure tt
cut_to_zero fd (ok i) = do
  s ← get
  r ← attempt (write_inode (ino_of fd s) (record i { size = 0 }))
  or_close fd r

-- The file is opened for writing and cut to 0, and its offset is set to 0.
unfoldable pub open_cut : List ℕ → M ℕ
unfolding fs_open cut_to_zero
open_cut path = do
  fd ← fs_open path (codes "w")
  s ← get
  r ← attempt (read_inode (ino_of fd s))
  cut_to_zero fd r
  ignore (fs_seek (pos fd) (pos 0))
  pure fd

-- The array `line` has 128 bytes.
abbrev pub session_text : ℤ → List ℕ → Option (List ℕ)
session_text uid user =
    let line = session_line uid user in if ltb (length line) 128 then some line else none

unfoldable pub session_save : ℤ → List ℕ → M (Unit {0})
unfolding open_cut
session_save uid user = do
  fd ← open_cut session_path
  line ← lift (session_text uid user)
  w ← attempt (fs_write (pos fd) line)
  ignore (fs_close (pos fd))
  code_of w

-- What the bytes of the session file say is taken over, unless they name no user.
unfoldable pub take_session : Option (ℤ × List ℕ) → M (Unit {0})
take_session none s = none
take_session (some (uid, [])) s = some (err fs_err, s)
take_session (some (uid, c ∷ user)) s =
    some (ok tt, record s { g_uid = int_bits uid; g_user = take (max_user_len - 1) (c ∷ user) })

unfoldable pub read_session : List ℕ → M (Unit {0})
unfolding take_session
read_session [] = fail fs_err
read_session (b ∷ bytes) = take_session (parse_session (up_to 0 (b ∷ bytes)))

unfoldable pub session_load : M (Unit {0})
unfolding read_session fs_open fs_close
session_load = do
  or_else (namei session_path) fs_err >>= λ _. pure tt
  fd ← fs_open session_path (codes "r")
  r ← attempt (fs_read (pos fd) 127)
  ignore (fs_close (pos fd))
  bytes ← or_else (handed r) fs_err
  read_session bytes

unfoldable pub make_users : Result ℕ → M (Unit {0})
unfolding fs_open fs_close
make_users (ok _) = pure tt
make_users (err _) = do
  fd ← fs_open users_path (codes "w")
  n ← attempt (fs_write (pos fd) (codes "root:root:0" ++ newline ∷ []))
  ignore (fs_close (pos fd))
  code_of n

unfoldable pub users_bootstrap : M (Unit {0})
unfolding make_users
users_bootstrap = do r ← attempt (namei users_path); make_users r

abbrev pub matched : Option ℤ → M ℤ
matched none = fail fs_err
matched (some uid) = pure uid

-- Results of `fs_write` are not looked at.
unfoldable pub write_lines : ℕ → List (List ℕ) → M (Unit {0})
unfolding fs_write
write_lines fd [] = pure tt
write_lines fd (l ∷ lines) = do ignore (fs_write (pos fd) l); write_lines fd lines

-- The text and what lies behind it in memory.
module _ (heap : List ℕ) where
  unfoldable pub users_login : List ℕ → List ℕ → M (Unit {0})
  unfolding read_whole_file
  users_login name pass = do
    text ← or_else (read_whole_file users_path) fs_err
    let (lines, ended) = lines_of [] (text ++ heap)
    found ← lift (find_account name pass lines ended)
    uid ← matched found
    modify (λ s. record s { g_uid = int_bits uid; g_user = take (max_user_len - 1) name })
    s ← get
    ignore (session_save (to_int32 s.g_uid) s.g_user)

  unfoldable pub add_account : List ℕ → List ℕ → M (Unit {0})
  unfolding read_whole_file append_line
  add_account name pass = do
    text ← or_else (read_whole_file users_path) fs_err
    let (lines, ended) = lines_of [] (text ++ heap)
    found ← lift (max_account name lines ended (pos 0))
    max_uid ← handed found
    uid ← lift (next_uid max_uid)
    append_line users_path (take 255 (show_account name pass uid))

  unfoldable pub users_add : List ℕ → List ℕ → M (Unit {0})
  unfolding add_account
  users_add name pass = do s ← get; if s.g_uid == 0 then add_account name pass else fail eperm

  unfoldable pub rewrite_accounts : List ℕ → List ℕ → M (Unit {0})
  unfolding read_whole_file open_cut write_lines
  rewrite_accounts name pass = do
    text ← or_else (read_whole_file users_path) fs_err
    fd ← open_cut users_path
    let (lines, ended) = lines_of [] (text ++ heap)
    out ← lift (new_lines name pass lines ended)
    write_lines fd out
    ignore (fs_close (pos fd))

  unfoldable pub users_change_password : List ℕ → List ℕ → M (Unit {0})
  unfolding rewrite_accounts
  users_change_password name pass = do
    s ← get
    if s.g_uid == 0 || strcmp_eq s.g_user name then rewrite_accounts name pass else fail eperm
