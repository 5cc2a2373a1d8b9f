-- ===== src/Ext2/Command/Output.antt =====
-- project3/src/cli.c: what the commands print.
use Prim.Native.String.{String}
use xjtu_os_project.Prelude.{ℕ, Bool, List}
use xjtu_os_project.Ext2.State.{Result, ok, err, M, pure}

-- A line of `ls`.
pub record Row : Type 0 where
  pub modes : List ℕ
  pub uid : ℕ
  pub is_directory : Bool
  pub name : List ℕ
  pub size : ℕ
  pub ctime : ℕ
  pub mtime : ℕ
  pub atime : ℕ

-- What a command prints: a text, a number with what `fs_write` or `fs_open` or `fs_read` returned, the
-- bytes that were read, the rows of a listing, or a user.
pub data Output : Type 0 where
  says : String → Output
  fd_is : ℕ → Output
  wrote : Result ℕ → Output
  wrote_file : Result (Unit {0}) → ℕ → Output
  read_back : Result (List ℕ) → Output
  rows : List Row → Output
  user : List ℕ → ℕ → Output

abbrev pub say_if : {A : Type 0} → String → String → Result A → M Output
say_if good bad (ok _) = pure (says good)
say_if good bad (err _) = pure (says bad)
