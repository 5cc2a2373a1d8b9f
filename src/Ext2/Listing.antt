-- ===== src/Ext2/Listing.antt =====
-- project3/src/util.c: `mode_to_str`.
use Prim.Native.Nat.{bit_and}
use xjtu_os_project.Prelude.{ℕ, List, [], ◌∷◌, if◌then◌else◌, ◌==◌}
use xjtu_os_project.Ext2.Dir.{is_dir}

abbrev pub letter : ℕ → ℕ → ℕ → ℕ
letter mode bit c = if bit_and mode bit == 0 then b'-' else c

unfoldable pub mode_to_str : ℕ → List ℕ
unfolding is_dir
mode_to_str mode =
    (if is_dir mode then b'd' else b'-')
    ∷ letter mode 0o400 b'r'
    ∷ letter mode 0o200 b'w'
    ∷ letter mode 0o100 b'x'
    ∷ letter mode 0o040 b'r'
    ∷ letter mode 0o020 b'w'
    ∷ letter mode 0o010 b'x'
    ∷ letter mode 0o004 b'r'
    ∷ letter mode 0o002 b'w'
    ∷ letter mode 0o001 b'x'
    ∷ []
