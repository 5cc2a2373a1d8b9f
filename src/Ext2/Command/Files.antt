-- ===== src/Ext2/Command/Files.antt =====
-- project3/src/cli.c: the commands that open, read and write files. `malloc` succeeds for a size that is
-- not negative.
use xjtu_os_project.Prelude.{
  ℕ, zero, suc, ◌+◌, true, false, List, [], ◌∷◌, Option, none, some, ltb, take, drop, length, ℤ,
  pos, negsuc,
}
use xjtu_os_project.Ext2.Bytes.{block_size}
use xjtu_os_project.Ext2.State.{Result, ok, err, M, pure, undefined, ◌>>=◌, ◌>>◌, ignore, attempt}
use xjtu_os_project.Ext2.Open.{fs_open, fs_close, fs_seek}
use xjtu_os_project.Ext2.Io.{fs_read, fs_write}
use xjtu_os_project.Ext2.Text.{codes}
use xjtu_os_project.Ext2.Command.Output.{Output, says, fd_is, wrote, wrote_file, read_back, say_if}

unfoldable pub cmd_create : List ℕ → M Output
cmd_create path = do
  r ← attempt (do fd ← fs_open path (codes "w"); ignore (fs_close (pos fd)))
  say_if "[OK]" "[ERR]" r

abbrev pub opened : Result ℕ → M Output
opened (err _) = pure (says "[ERR]")
opened (ok fd) = pure (fd_is fd)

unfoldable pub cmd_open : List ℕ → List ℕ → M Output
cmd_open path mode = attempt (fs_open path mode) >>= opened

unfoldable pub cmd_write_fd : ℤ → List ℕ → M Output
cmd_write_fd fd text = do n ← attempt (fs_write fd text); pure (wrote n)

-- A negative number is no size of a buffer.
unfoldable pub cmd_read_fd : ℤ → ℤ → M Output
cmd_read_fd fd (negsuc n) = undefined
cmd_read_fd fd (pos n) = do r ← attempt (fs_read fd n); pure (read_back r)

unfoldable pub cmd_close : ℤ → M Output
cmd_close fd = attempt (fs_close fd) >>= say_if "close=OK" "close=ERR"

unfoldable pub cmd_seek : ℤ → ℤ → M Output
cmd_seek fd off = attempt (fs_seek fd off) >>= say_if "seek=OK" "seek=ERR"

unfoldable pub writef_open : List ℕ → Result ℕ → M Output
writef_open text (err _) = pure (says "writef: open fail")
writef_open text (ok fd) = do
  n ← attempt (fs_write (pos fd) text)
  ignore (fs_close (pos fd))
  pure (wrote n)

unfoldable pub cmd_writef : List ℕ → List ℕ → M Output
unfolding writef_open
cmd_writef path text = attempt (fs_open path (codes "w")) >>= writef_open text

unfoldable pub readf_open : ℤ → Result ℕ → M Output
readf_open n (err _) = pure (says "readf: open fail")
readf_open (negsuc n) (ok fd) = undefined
readf_open (pos n) (ok fd) = do
  r ← attempt (fs_read (pos fd) n)
  ignore (fs_close (pos fd))
  pure (read_back r)

unfoldable pub cmd_readf : List ℕ → ℤ → M Output
unfolding readf_open
cmd_readf path n = attempt (fs_open path (codes "r")) >>= readf_open n

-- The loop of `writefile`, a block a round; `total` bytes have been written. A round that is not the
-- last takes 512 bytes, so as many rounds as bytes, and one more, are enough.
unfoldable pub copy_in : ℕ → ℕ → ℕ → List ℕ → M Output
copy_in zero fd total bytes s = none
copy_in (suc fuel) fd total [] s = some (ok (wrote_file (ok tt) total), s)
copy_in (suc fuel) fd total (b ∷ bytes) s =
    elim (fs_write (pos fd) (take block_size (b ∷ bytes)) s) [
      | none ↦ none
      | some (err e, s') ↦ some (ok (wrote_file (err e) total), s')
      | some (ok w, s') ↦ elim (ltb (length (b ∷ bytes)) block_size) [
        | true ↦ some (ok (wrote_file (ok tt) (total + w)), s')
        | false ↦ copy_in fuel fd (total + w) (drop block_size (b ∷ bytes)) s'
      ]
    ]

unfoldable pub writefile_open : List ℕ → Result ℕ → M Output
unfolding copy_in
writefile_open bytes (err _) = pure (says "writefile: open fail")
writefile_open bytes (ok fd) = do
  out ← copy_in (length bytes + 1) fd 0 bytes
  ignore (fs_close (pos fd))
  pure out

-- The bytes of the host's file, if it can be opened.
unfoldable pub cmd_writefile : List ℕ → Option (List ℕ) → M Output
unfolding writefile_open
cmd_writefile path none = pure (says "writefile: cannot open")
cmd_writefile path (some bytes) = attempt (fs_open path (codes "w")) >>= writefile_open bytes
