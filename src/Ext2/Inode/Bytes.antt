-- ===== src/Ext2/Inode/Bytes.antt =====
-- project3/src/inode.c: an inode comes back from its 128 bytes.
use xjtu_os_project.Prelude.{
  ℕ, ◌^◌, ◌<◌, ◌≡◌, refl, ap, sym, ◌∙◌, List, [], ◌∷◌, ◌++◌, arith, take, drop, length, All,
  length-append,
}
use xjtu_os_project.Ext2.Bytes.{IsBytes, u16_at, u32_at, u32_bytes, words_bytes, words_at}
use xjtu_os_project.Ext2.Bytes.Laws.{
  drop-append, length-words_bytes, words_at-words_bytes, words_bytes-IsBytes, append-IsBytes,
}
use xjtu_os_project.Ext2.State.{Inode}
use xjtu_os_project.Ext2.Inode.{inode_head, inode_bytes, inode_of}

-- The fields are in the range of their C types, and the arrays have their lengths.
pub record IsInode (i : Inode) : Type 0 where
  pub mode : i.mode < 2 ^ 16
  pub uid : i.uid < 2 ^ 16
  pub size : i.size < 2 ^ 32
  pub atime : i.atime < 2 ^ 32
  pub mtime : i.mtime < 2 ^ 32
  pub ctime : i.ctime < 2 ^ 32
  pub gid : i.gid < 2 ^ 16
  pub links : i.links < 2 ^ 16
  pub blocks : i.blocks < 2 ^ 32
  pub direct : All (λ w. w < 2 ^ 32) i.direct
  pub direct_length : length i.direct ≡ 10
  pub indirect1 : i.indirect1 < 2 ^ 32
  pub reserve : IsBytes i.reserve
  pub reserve_length : length i.reserve ≡ 56

module _ (i : Inode) (v : IsInode i) where
  behind : List ℕ
  behind = u32_bytes i.indirect1 ++ i.reserve

  direct_back : words_at 10 (words_bytes i.direct ++ behind) ≡ i.direct
  direct_back =
      ap (λ n. words_at n (words_bytes i.direct ++ behind)) (sym v.direct_length)
      ∙ words_at-words_bytes i.direct behind v.direct

  past_direct : drop 40 (words_bytes i.direct ++ behind) ≡ behind
  past_direct =
      ap (λ n. drop n (words_bytes i.direct ++ behind)) {x = 40} {y = length (words_bytes i.direct)}
        (omega (arith, length-words_bytes i.direct, v.direct_length))
      ∙ drop-append (words_bytes i.direct) behind

  reserve_back : take 56 i.reserve ≡ i.reserve
  reserve_back = rw (← v.reserve_length) (whole i.reserve)
    where
      whole : (xs : List ℕ) → take (length xs) xs ≡ xs
      whole [] = refl
      whole (x ∷ xs) = ap (◌∷◌ x) (whole xs)

  -- An inode whose fields are in range is read back from the bytes that are written for it.
  pub inode_of-inode_bytes : inode_of (inode_bytes i) ≡ i
  unfolding inode_of inode_bytes behind
  inode_of-inode_bytes = λ j. record {
    mode = m j;
    uid = u j;
    size = s j;
    atime = at j;
    mtime = mt j;
    ctime = ct j;
    gid = g j;
    links = l j;
    blocks = b j;
    direct = direct_back j;
    indirect1 = in1 j;
    reserve = res j;
  }
    where
      m : u16_at (inode_bytes i) 0 ≡ i.mode
      m = omega (arith, v.mode)

      u : u16_at (inode_bytes i) 2 ≡ i.uid
      u = omega (arith, v.uid)

      s : u32_at (inode_bytes i) 4 ≡ i.size
      s = omega (arith, v.size)

      at : u32_at (inode_bytes i) 8 ≡ i.atime
      at = omega (arith, v.atime)

      mt : u32_at (inode_bytes i) 12 ≡ i.mtime
      mt = omega (arith, v.mtime)

      ct : u32_at (inode_bytes i) 16 ≡ i.ctime
      ct = omega (arith, v.ctime)

      g : u16_at (inode_bytes i) 20 ≡ i.gid
      g = omega (arith, v.gid)

      l : u16_at (inode_bytes i) 22 ≡ i.links
      l = omega (arith, v.links)

      b : u32_at (inode_bytes i) 24 ≡ i.blocks
      b = omega (arith, v.blocks)

      in1 : u32_at (drop 40 (words_bytes i.direct ++ behind)) 0 ≡ i.indirect1
      in1 = rw past_direct (omega (arith, v.indirect1))

      res : take 56 (drop 4 (drop 40 (words_bytes i.direct ++ behind))) ≡ i.reserve
      res = rw past_direct reserve_back

  pub length-inode_bytes : length (inode_bytes i) ≡ 128
  unfolding inode_bytes
  length-inode_bytes = omega (
    arith,
    length-append (words_bytes i.direct) (u32_bytes i.indirect1 ++ i.reserve),
    length-words_bytes i.direct,
    v.direct_length,
    v.reserve_length,
  )

  pub inode_bytes-IsBytes : IsBytes (inode_bytes i)
  unfolding inode_bytes
  inode_bytes-IsBytes =
      append-IsBytes (inode_head i) (words_bytes i.direct ++ (u32_bytes i.indirect1 ++ i.reserve))
        (omega arith)
        (append-IsBytes (words_bytes i.direct) (u32_bytes i.indirect1 ++ i.reserve)
          (words_bytes-IsBytes i.direct)
          (append-IsBytes (u32_bytes i.indirect1) i.reserve (omega arith) v.reserve))
