-- ===== src/Ext2/Command/Rights.antt =====
-- project3/src/cli.c: what `chmod` does with an inode that can be read.
use xjtu_os_project.Prelude.{
  ℕ, ◌+◌, ◌*◌, ◌/◌, ◌%◌, ◌^◌, ◌<◌, ◌≤◌, ◌≡◌, ◌≢◌, ◌⊎◌, inl, inr, refl, ap, sym, ◌∙◌, Bool, true,
  false, not, ◌&&◌, Bool-cases, List, some, arith, if◌then◌else◌, ◌==◌,
}
use xjtu_os_project.Ext2.State.{Inode, Fs, ok, pure, ◌>>=◌, ◌>>◌, ignore, must, ts_now}
use xjtu_os_project.Ext2.Dev.Laws.{IsMounted, IsMounted-same}
use xjtu_os_project.Ext2.Bitmap.{max_inodes, lift}
use xjtu_os_project.Ext2.Inode.{read_inode, write_inode}
use xjtu_os_project.Ext2.Inode.Bytes.{IsInode}
use xjtu_os_project.Ext2.Inode.Table.{read_inode-write_inode}
use xjtu_os_project.Ext2.Dir.{is_dir}
use xjtu_os_project.Ext2.Command.Output.{Output, says}
use xjtu_os_project.Ext2.Command.Chmod.{scan_octal, chmod_inode, chmod_at}
use xjtu_os_project.Ext2.Command.Modes.{new_mode_lem, is_dir-new_mode}

-- The inode with the new mode and the time of the change.
abbrev pub with_mode : ℕ → Fs → Inode → Inode
with_mode m s i = record i {
  mode = i.mode / 4096 * 4096 + m % 512;
  ctime = s.clock s.calls % 2 ^ 32;
}

-- A user who is neither root nor the owner is refused, and nothing changes; for the others the inode
-- keeps its type and all fields but the mode and the time of its change.
pub data ChmodResult (ino m : ℕ) (i : Inode) (s : Fs) : Output → Fs → Type 0 where
  refused : s.g_uid ≢ 0 → i.uid ≢ s.g_uid → ChmodResult ino m i s (says "chmod: EPERM") s
  changed :
      {t : Fs}
      → (s.g_uid ≡ 0) ⊎ (i.uid ≡ s.g_uid)
      → read_inode ino t ≡ some (ok (with_mode m s i), t)
      → is_dir (with_mode m s i).mode ≡ is_dir i.mode
      → IsMounted t
      → ChmodResult ino m i s (says "[OK]") t

owner : (a b : ℕ) → (not (a == 0) && not (b == a)) ≡ false → (a ≡ 0) ⊎ (b ≡ a)
owner a b h = ground arith

module _ (oct : List ℕ) (ino m : ℕ) (i : Inode) (s : Fs) (v : IsInode i) where
  with_mode-IsInode : IsInode (with_mode m s i)
  with_mode-IsInode = record {
    mode = omega (arith, v.mode);
    uid = v.uid;
    size = v.size;
    atime = v.atime;
    mtime = v.mtime;
    ctime = omega arith;
    gid = v.gid;
    links = v.links;
    blocks = v.blocks;
    direct = v.direct;
    direct_length = v.direct_length;
    indirect1 = v.indirect1;
    reserve = v.reserve;
    reserve_length = v.reserve_length;
  }

  chmod_inode_run :
      (t : Fs)
      → m < 4096
      → scan_octal oct ≡ some m
      → write_inode ino (with_mode m s i) (record s { calls = s.calls + 1 }) ≡ some (ok tt, t)
      → chmod_inode oct ino i s ≡ some (ok (says "[OK]"), t)
  unfolding chmod_inode ts_now
  chmod_inode_run t small e w =
      rw (e, lift, ◌>>=◌, new_mode_lem i.mode m v.mode small, ignore, ◌>>◌, w) refl

  -- Where the inode can be read: one of the two branches.
  chmod_at_branch :
      (refuse : Bool)
      → (not (s.g_uid == 0) && not (i.uid == s.g_uid)) ≡ refuse
      → read_inode ino s ≡ some (ok i, s)
      → chmod_at oct (ok ino) s
        ≡ (if refuse then pure (says "chmod: EPERM") else chmod_inode oct ino i) s
  unfolding chmod_at
  chmod_at_branch refuse e r = rw (r, must, ◌>>=◌, e) refl

  -- On an open image of full size, `chmod` of an inode that can be read and whose fields are in range,
  -- with an octal number below 010000, succeeds. It refuses a user who is neither root nor the owner,
  -- and then nothing changes. For the others, `read_inode` then returns the inode with the nine
  -- permission bits of the number, the three bits above them cleared, the type as it was, the time of
  -- the change, and all other fields as they were.
  pub chmod_at-ChmodResult :
      IsMounted s
      → 1 ≤ ino
      → ino ≤ max_inodes
      → m < 4096
      → scan_octal oct ≡ some m
      → read_inode ino s ≡ some (ok i, s)
      → (out : Output) × (t : Fs) × (chmod_at oct (ok ino) s ≡ some (ok out, t))
        × ChmodResult ino m i s out t
  chmod_at-ChmodResult mounted lo hi small e r =
      elim (Bool-cases (not (s.g_uid == 0) && not (i.uid == s.g_uid))) [
        | inl stop ↦ (
          says "chmod: EPERM",
          s,
          chmod_at_branch true stop r,
          refused (λ z. ground (arith, z, stop)) (λ z. ground (arith, z, stop)),
        )
        | inr free ↦
            let (t, w, back, m') =
              read_inode-write_inode ino lo hi (with_mode m s i) with_mode-IsInode
                (record s { calls = s.calls + 1 })
                (IsMounted-same mounted refl refl refl refl refl refl refl) in
            (
              says "[OK]",
              t,
              chmod_at_branch false free r ∙ chmod_inode_run t small e w,
              changed (owner s.g_uid i.uid free) back
                  (ap is_dir (sym (new_mode_lem i.mode m v.mode small))
                    ∙ is_dir-new_mode i.mode m v.mode small)
                  m',
            )
      ]
