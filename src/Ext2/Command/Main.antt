-- ===== src/Ext2/Command/Main.antt =====
-- project3/src/cli.c: `main`. The branches that ask again for a command that has been asked for are
-- left out: they are never reached.
use Prim.Native.String.{String}
use xjtu_os_project.Prelude.{ℕ, Bool, List, [], ◌∷◌, Option, some, if◌then◌else◌}
use xjtu_os_project.Ext2.State.{Result, ok, err, M, pure, ◌>>=◌, ◌>>◌, ignore, attempt}
use xjtu_os_project.Ext2.Dev.{dev_close}
use xjtu_os_project.Ext2.Bitmap.{lift}
use xjtu_os_project.Ext2.Text.{codes, strcmp_eq, atoi}
use xjtu_os_project.Ext2.Security.{users_login, users_add, users_change_password}
use xjtu_os_project.Ext2.Format.{fs_format, fs_mount}
use xjtu_os_project.Ext2.Command.Output.{Output, says, user, say_if}
use xjtu_os_project.Ext2.Command.Ls.{cmd_ls}
use xjtu_os_project.Ext2.Command.Tree.{cmd_mkdir, cmd_cd, cmd_delete}
use xjtu_os_project.Ext2.Command.Files.{
  cmd_create, cmd_open, cmd_write_fd, cmd_read_fd, cmd_close, cmd_seek, cmd_writef, cmd_readf,
  cmd_writefile,
}
use xjtu_os_project.Ext2.Command.Chmod.{cmd_chmod}

abbrev pub is_word : List ℕ → String → Bool
is_word word name = strcmp_eq word (codes name)

abbrev pub whoami : M Output
whoami s = some (ok (user s.g_user s.g_uid), s)

-- The host's files, and what memory holds behind a text that is read into it.
module _ (host : List ℕ → Option (List ℕ)) (heap : List ℕ) where
  -- The commands without an argument, and `ls`.
  unfoldable pub run_alone : List ℕ → M Output
  run_alone word =
      if is_word word "ls"
      then cmd_ls []
      else if is_word word "whoami"
      then whoami
      else pure (says "[ERR] unknown or bad args")

  unfoldable pub run_one : List ℕ → List ℕ → M Output
  unfolding run_alone
  run_one word a =
      if is_word word "ls"
      then cmd_ls a
      else if is_word word "mkdir"
      then cmd_mkdir a
      else if is_word word "create"
      then cmd_create a
      else if is_word word "open"
      then cmd_open a (codes "r")
      else if is_word word "close"
      then lift (atoi a) >>= cmd_close
      else if is_word word "cd"
      then cmd_cd a
      else if is_word word "delete"
      then cmd_delete a
      else run_alone word

  -- The commands that ask for one argument ignore a second one, but for `open`.
  unfoldable pub run_two : List ℕ → List ℕ → List ℕ → M Output
  unfolding run_one
  run_two word a b =
      if is_word word "login"
      then attempt (users_login heap a b) >>= say_if "[OK]" "[ERR] login"
      else if is_word word "password"
      then attempt (users_change_password heap a b) >>= say_if "[OK]" "[ERR] password"
      else if is_word word "open"
      then cmd_open a b
      else if is_word word "write"
      then lift (atoi a) >>= (λ fd. cmd_write_fd fd b)
      else if is_word word "read"
      then lift (atoi a) >>= (λ fd. lift (atoi b) >>= cmd_read_fd fd)
      else if is_word word "seek"
      then lift (atoi a) >>= (λ fd. lift (atoi b) >>= cmd_seek fd)
      else if is_word word "writef"
      then cmd_writef a b
      else if is_word word "readf"
      then lift (atoi b) >>= cmd_readf a
      else if is_word word "writefile"
      then cmd_writefile a (host b)
      else if is_word word "chmod"
      then cmd_chmod a b
      else if is_word word "useradd"
      then attempt (users_add heap a b) >>= say_if "[OK]" "[ERR] useradd"
      else run_one word a

  unfoldable pub run_command : List ℕ → List (List ℕ) → M Output
  unfolding run_alone run_one run_two
  run_command word [] = run_alone word
  run_command word (a ∷ []) = run_one word a
  run_command word (a ∷ b ∷ _) = run_two word a b

  -- The exit code, and what is printed.
  unfoldable pub after_mount : List ℕ → List (List ℕ) → Result (Unit {0}) → M (ℕ × Output)
  unfolding run_command
  after_mount word args (err _) = pure (1, says "[ERR] auto-mount disk.img fail (run format first)")
  after_mount word args (ok _) = do out ← run_command word args; ignore dev_close; pure (0, out)

  -- The arguments behind the program's name.
  unfoldable pub main : List (List ℕ) → M (ℕ × Output)
  unfolding after_mount
  main [] = pure (0, says "Usage")
  main (word ∷ args) =
      let format = attempt fs_format >>= say_if "[OK] formatted" "[ERR] format fail" >>= λ out.
      pure (0, out) in
      let mount =
        attempt fs_mount >>= say_if "[OK] mounted" "[ERR] mount fail" >>= λ out. pure (0, out) in
      let command = attempt fs_mount >>= after_mount word args in
      if is_word word "format" then format else if is_word word "mount" then mount else command
