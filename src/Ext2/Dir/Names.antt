-- ===== src/Ext2/Dir/Names.antt =====
-- project3/src/dir.c: names in directory entries.
use xjtu_os_project.Prelude.{
  ℕ, zero, suc, ◌-◌, ◌^◌, ◌<◌, ◌≤◌, ◌≡◌, ◌≢◌, ◌↔◌, refl, ap, List, [], ◌∷◌, ◌++◌, true, arith,
  length, take, replicate, All, length-append, length-replicate,
}
use xjtu_os_project.Ext2.State.{Dirent}
use xjtu_os_project.Ext2.Dir.{
  name_max_len, dirent_size, dirent_bytes, dirent_of, strncmp_eq, strncpy, is_entry,
}
use xjtu_os_project.Ext2.Dir.Entries.{IsDirent, dirent_of-dirent_bytes}

-- The bytes of a C string in front of the zero byte that ends it.
abbrev pub IsName : List ℕ → Type 0
IsName = All (λ c. c ≢ 0)

take_whole : (n : ℕ) (a : List ℕ) → length a ≤ n → take n a ≡ a
take_whole zero [] h = refl
take_whole zero (x ∷ a) h = absurd (omega arith)
take_whole (suc n) [] h = refl
take_whole (suc n) (x ∷ a) h = ap (◌∷◌ x) (take_whole n a (omega arith))

-- `strncmp` finds a name equal to itself with zero bytes behind it.
same_name : (n k : ℕ) (a : List ℕ) → strncmp_eq n (a ++ replicate k 0) a ≡ true
unfolding strncmp_eq
same_name zero k a = refl
same_name (suc n) zero [] = refl
same_name (suc n) (suc k) [] = refl
same_name (suc n) k (x ∷ a) = ground (arith, same_name n k a)

equal_name :
    (n k : ℕ) (a b : List ℕ)
    → IsName a
    → IsName b
    → length a < n
    → strncmp_eq n (a ++ replicate k 0) b ≡ true
    → a ≡ b
unfolding strncmp_eq
equal_name zero k a b ha hb lt e = absurd (omega arith)
equal_name (suc n) k [] [] ha hb lt e = refl
equal_name (suc n) zero [] (y ∷ b) ha hb lt e = absurd (hb.0 (ground arith))
equal_name (suc n) (suc k) [] (y ∷ b) ha hb lt e = absurd (hb.0 (ground arith))
equal_name (suc n) k (x ∷ a) [] ha hb lt e = absurd (ha.0 (ground arith))
equal_name (suc n) k (x ∷ a) (y ∷ b) ha hb lt e =
    let xy : x ≡ y = ground arith in
    let ab : a ≡ b = equal_name n k a b ha.1 hb.1 (omega arith) (ground (arith, ha.0)) in cc

-- The entry that `dir_add` writes.
abbrev pub added : List ℕ → ℕ → ℕ → Dirent
added name ftype ino = record {
  ino = ino;
  reclen = dirent_size;
  file_type = ftype;
  name = strncpy (name_max_len - 1) name;
}

pub added-IsDirent :
    (name : List ℕ) (ftype ino : ℕ)
    → length name ≤ 55
    → ftype < 256
    → ino < 2 ^ 32
    → IsDirent (added name ftype ino)
unfolding strncpy
added-IsDirent name ftype ino h hf hi = record {
  ino = hi;
  reclen = omega arith;
  file_type = hf;
  name_length = rw (take_whole 55 name h) (
      omega (
        arith,
        length-append name (replicate (56 - length name) 0),
        length-replicate {A = ℕ} (56 - length name) 0,
      ));
}

-- The bytes that `dir_add` writes for a name of at most 55 bytes and an inode other than 0 are
-- found by `dir_lookup` and `dir_remove`, which compare names with `is_entry`, under that name and
-- under no other.
pub is_entry-added :
    (name other : List ℕ) (ftype ino : ℕ)
    → IsName name
    → IsName other
    → length name ≤ 55
    → ftype < 256
    → ino ≢ 0
    → ino < 2 ^ 32
    → (is_entry other (dirent_of (dirent_bytes (added name ftype ino))) ≡ true) ↔ (name ≡ other)
unfolding strncpy
is_entry-added name other ftype ino hn ho h hf ne hi =
    rw
      (
        dirent_of-dirent_bytes (added name ftype ino) (added-IsDirent name ftype ino h hf hi),
        take_whole 55 name h,
      )
      (
        λ e. equal_name 56 (56 - length name) name other hn ho (omega arith) (ground arith),
        λ e. rw (← e) (ground (arith, same_name 56 (56 - length name) name)),
      )
