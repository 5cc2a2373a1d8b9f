-- ===== src/Ext2/Dir/Empty.antt =====
-- project3/src/dir.c: a directory without entries.
use xjtu_os_project.Prelude.{
  ℕ, zero, suc, ◌≤◌, ◌≡◌, refl, ap, ◌∙◌, [], arith, true, replicate, get_or,
}
use xjtu_os_project.Ext2.State.{Inode, Fs}
use xjtu_os_project.Ext2.Dev.Laws.{IsMounted}
use xjtu_os_project.Ext2.Bitmap.{max_inodes}
use xjtu_os_project.Ext2.Inode.Bytes.{IsInode}
use xjtu_os_project.Ext2.Inode.Table.{stored_inode, stored_inode-IsMounted, read_back}
use xjtu_os_project.Ext2.Dir.{is_dir}
use xjtu_os_project.Ext2.Dir.Slots.{IsDirectory}

zeros : (n b : ℕ) → ◌≡◌ {A = ℕ} (get_or (replicate n 0) b 0) 0
zeros zero b = refl
zeros (suc n) zero = refl
zeros (suc n) (suc b) = zeros n b

-- An inode that is written as a directory without blocks is an empty directory.
pub empty_lem :
    (dir : ℕ) (lo : 1 ≤ dir) (hi : dir ≤ max_inodes) (i : Inode) (v : IsInode i) (s : Fs)
    (m : IsMounted s)
    → is_dir i.mode ≡ true
    → i.size ≡ 0
    → i.direct ≡ replicate 10 0
    → IsDirectory dir i [] (stored_inode dir lo hi i s)
empty_lem dir lo hi i v s m d z e = record {
  blocks = record {
    mounted = stored_inode-IsMounted dir lo hi i v s m;
    room = omega arith;
    lo = λ b h. absurd (omega arith);
    hi = λ b h. absurd (omega arith);
    taken = λ b h. absurd (omega arith);
    distinct = λ b c h h' e. absurd (omega arith);
  };
  lo = lo;
  hi = hi;
  inode = v;
  reads = read_back dir lo hi i v s m;
  is_directory = d;
  size = z;
  no_more = λ b h. ap (λ ds. get_or ds b 0) e ∙ zeros 10 b;
  entries = λ k h. absurd (omega arith);
}
