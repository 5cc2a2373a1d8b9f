-- ===== src/Ext2/Dir/Entries.antt =====
-- project3/src/dir.c: a directory entry and its 64 bytes.
use xjtu_os_project.Prelude.{◌%◌, ◌^◌, ◌<◌, ◌≡◌, ap, sym, ◌∙◌, [], ◌∷◌, ◌++◌, arith, length, take}
use xjtu_os_project.Ext2.Bytes.{u16_at, u32_at}
use xjtu_os_project.Ext2.Bytes.Laws.{take-append}
use xjtu_os_project.Ext2.State.{Dirent}
use xjtu_os_project.Ext2.Dir.{name_max_len, dirent_bytes, dirent_of}

-- The fields of a `dirent_t` are in range.
pub record IsDirent (de : Dirent) : Type 0 where
  pub ino : de.ino < 2 ^ 32
  pub reclen : de.reclen < 2 ^ 16
  pub file_type : de.file_type < 256
  pub name_length : length de.name ≡ name_max_len

module _ (de : Dirent) (v : IsDirent de) where
  -- A directory entry whose fields are in range is read back from the bytes that are written for
  -- it.
  pub dirent_of-dirent_bytes : dirent_of (dirent_bytes de) ≡ de
  unfolding dirent_of dirent_bytes
  dirent_of-dirent_bytes = λ j. record de {
    ino = ino_back j;
    reclen = reclen_back j;
    file_type = type_back j;
    name = name_back j;
  }
    where
      ino_back : u32_at (dirent_bytes de) 0 ≡ de.ino
      ino_back = omega (arith, v.ino)

      reclen_back : u16_at (dirent_bytes de) 4 ≡ de.reclen
      reclen_back = omega (arith, v.reclen)

      type_back : de.file_type % 256 ≡ de.file_type
      type_back = omega (arith, v.file_type)

      name_back : take 56 (de.name ++ 0 ∷ []) ≡ de.name
      name_back =
          ap (λ n. take n (de.name ++ 0 ∷ [])) (sym v.name_length) ∙ take-append de.name (0 ∷ [])
