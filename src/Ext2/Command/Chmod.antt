-- ===== src/Ext2/Command/Chmod.antt =====
-- project3/src/cli.c: `cmd_chmod`.
use Prim.Native.Nat.{bit_and, bit_or}
use xjtu_os_project.Prelude.{
  ℕ, ◌+◌, ◌-◌, ◌*◌, ◌%◌, not, ◌&&◌, List, [], ◌∷◌, Option, none, some, if◌then◌else◌, ltb, leb,
  ◌==◌,
}
use xjtu_os_project.Ext2.State.{
  Inode, Result, ok, err, M, pure, ◌>>=◌, ◌>>◌, get, ignore, must, attempt, ts_now,
}
use xjtu_os_project.Ext2.Bitmap.{lift}
use xjtu_os_project.Ext2.Inode.{read_inode, write_inode}
use xjtu_os_project.Ext2.Dir.{namei}
use xjtu_os_project.Ext2.Text.{is_space}
use xjtu_os_project.Ext2.Command.Output.{Output, says}

-- `sscanf(oct, "%o", &m)` into `m`, which was 0; undefined where the number has more than 32 bits.
unfoldable pub octal_value : ℕ → List ℕ → ℕ
octal_value acc [] = acc
octal_value acc (c ∷ s) =
    let rest = octal_value (acc * 8 + (c - 48)) s in if leb 48 c && leb c 55 then rest else acc

abbrev pub word : ℕ → Option ℕ
word n = if ltb n 4294967296 then some n else none

abbrev pub negated : Option ℕ → Option ℕ
negated none = none
negated (some n) = some ((4294967296 - n) % 4294967296)

unfoldable pub scan_octal : List ℕ → Option ℕ
unfolding octal_value
scan_octal [] = some 0
scan_octal (c ∷ s) =
    let skip = scan_octal s in
    if is_space c
    then skip
    else if c == b'-'
    then negated (word (octal_value 0 s))
    else if c == b'+'
    then word (octal_value 0 s)
    else word (octal_value 0 (c ∷ s))

-- `(in.mode & 0170000) | (m & 0777)`
unfoldable pub new_mode : ℕ → ℕ → ℕ
new_mode mode m = bit_or (bit_and mode 0o170000) (bit_and m 0o777)

unfoldable pub chmod_inode : List ℕ → ℕ → Inode → M Output
unfolding scan_octal
chmod_inode oct ino i = do
  m ← lift (scan_octal oct)
  ctime ← ts_now
  ignore (write_inode ino (record i { mode = new_mode i.mode m; ctime = ctime }))
  pure (says "[OK]")

unfoldable pub chmod_at : List ℕ → Result ℕ → M Output
unfolding chmod_inode
chmod_at oct (err _) = pure (says "chmod: noent")
chmod_at oct (ok ino) = do
  i ← must (read_inode ino)
  s ← get
  if not (s.g_uid == 0) && not (i.uid == s.g_uid)
      then pure (says "chmod: EPERM")
      else chmod_inode oct ino i

unfoldable pub cmd_chmod : List ℕ → List ℕ → M Output
unfolding chmod_at
cmd_chmod oct path = attempt (namei path) >>= chmod_at oct
