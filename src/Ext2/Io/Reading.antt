-- ===== src/Ext2/Io/Reading.antt =====
-- project3/src/file.c: what `fs_read` does to the image and to the table of open files.
use xjtu_os_project.Prelude.{
  ℕ, ◌+◌, ◌-◌, ◌%◌, ◌^◌, ◌≤◌, ◌≡◌, ◌⊎◌, inl, inr, refl, ap, ◌∙◌, List, Option, none, some, arith,
  true, ◌||◌, Bool-cases, Option-cases, ltb, leb, ◌==◌, length, get_or, ℤ,
}
use xjtu_os_project.Ext2.State.{
  Inode, OpenFile, Fs, Result, fs_err, ok, err, ◌>>=◌, ◌>>◌, or_else, ignore, ts_now,
}
use xjtu_os_project.Ext2.Dev.Laws.{IsMounted, IsMounted-same}
use xjtu_os_project.Ext2.Bitmap.{max_inodes, blk_data_start}
use xjtu_os_project.Ext2.Inode.{inode_pos, read_inode, write_inode}
use xjtu_os_project.Ext2.Inode.Table.{read_inode_run, write_inode_run, stored_inode}
use xjtu_os_project.Ext2.Map.{perm_can_read}
use xjtu_os_project.Ext2.Open.{no_file, slot_of, update_slot}
use xjtu_os_project.Ext2.Io.{read_loop, finish_read, read_slot, fs_read}
use xjtu_os_project.Ext2.Io.Descriptors.{slot_of-used, entry_there}
use xjtu_os_project.Ext2.Io.Reads.{LoopResult, read_loop_total}

-- `t` has the data blocks of `s`.
abbrev pub SameData : Fs → Fs → Type 0
SameData s t = (c : ℕ) → blk_data_start ≤ c → t.disk.content c ≡ s.disk.content c

module _ (ino : ℕ) (s : Fs) (m : IsMounted s) where
  read_inode_cases :
      (read_inode ino s ≡ some (err fs_err, s))
      ⊎ ((i : Inode) × (read_inode ino s ≡ some (ok i, s)))
  unfolding read_inode inode_pos
  read_inode_cases = elim (Bool-cases (ino == 0 || ltb max_inodes ino)) [
    | inl e ↦ inl (rw (e, ◌>>=◌) refl)
    | inr e ↦ inr (_, read_inode_run ino (ground arith) (ground arith) s m)
  ]

  write_inode_cases :
      (i : Inode)
      → (r : Result (Unit {0})) × (t : Fs) × (write_inode ino i s ≡ some (r, t))
        × (t.g_ofile ≡ s.g_ofile)
        × SameData s t
  unfolding write_inode inode_pos
  write_inode_cases i = elim (Bool-cases (ino == 0 || ltb max_inodes ino)) [
    | inl e ↦ (err fs_err, s, rw (e, ◌>>=◌) refl, refl, λ c h. refl)
    | inr e ↦ (
      ok tt,
      stored_inode ino (ground arith) (ground arith) i s,
      write_inode_run ino (ground arith) (ground arith) i s m,
      refl,
      λ c h. ground arith,
    )
  ]

moved : ℕ → Fs → ℕ → Fs
moved n s end = update_slot n (λ f. record f { offset = end }) s

finish_read_lem :
    (n : ℕ) (i : Inode) (bytes : List ℕ) (end : ℕ) (s : Fs)
    → IsMounted s
    → (t : Fs) × (finish_read n i (bytes, end) s ≡ some (ok bytes, t))
      × (t.g_ofile ≡ (moved n s end).g_ofile)
      × SameData s t
unfolding finish_read ts_now moved
finish_read_lem n i bytes end s m =
    let u : Fs = moved n s end in
    let later : Fs = record u { calls = u.calls + 1 } in
    let (r, t, e, files, kept) =
      write_inode_cases (get_or u.g_ofile n no_file).ino later
        (IsMounted-same m refl refl refl refl refl refl refl)
        (record i { atime = u.clock u.calls % 2 ^ 32 }) in
    (t, rw (◌>>=◌, ◌>>◌, ignore, e) refl, files, kept)

-- What `fs_read` returns, and what it leaves as it was.
abbrev pub ReadResult : ℤ → ℕ → Fs → Option (Result (List ℕ) × Fs) → Type 0
ReadResult fd len s none = ⊥
ReadResult fd len s (some (err e, t)) = t ≡ s
ReadResult fd len s (some (ok bytes, t)) =
    (n : ℕ) × (slot_of fd s ≡ some n)
    × ((i : Inode) × (read_inode (get_or s.g_ofile n no_file).ino s ≡ some (ok i, s))
        × (perm_can_read i s.g_uid ≡ true)
        × (length bytes ≤ i.size - (get_or s.g_ofile n no_file).offset))
    × (length bytes ≤ len)
    × ((get_or t.g_ofile n no_file).offset ≡ (get_or s.g_ofile n no_file).offset + length bytes)
    × SameData s t

module _ (fd : ℤ) (len n : ℕ) (s : Fs) (m : IsMounted s) (slot : slot_of fd s ≡ some n) where
  module _ (i : Inode) (here : read_inode (get_or s.g_ofile n no_file).ino s ≡ some (ok i, s))
      (may : perm_can_read i s.g_uid ≡ true) where
    abbrev at : ℕ
    at = (get_or s.g_ofile n no_file).offset

    offset_there :
        (u : Fs) (end : ℕ)
        → (get_or s.g_ofile n no_file).used ≡ true
        → u.g_ofile ≡ (moved n s end).g_ofile
        → (get_or u.g_ofile n no_file).offset ≡ end
    unfolding moved
    offset_there u end used files =
        rw files
          (ap (λ (f : OpenFile). f.offset) (entry_there n (λ f. record f { offset = end }) s used))

    looped :
        (left : ℕ) (r : Option (Result (List ℕ × ℕ) × Fs))
        → left ≤ len
        → left ≤ i.size - at
        → read_loop left i at left s ≡ r
        → LoopResult at left s r
        → ReadResult fd len s ((read_loop left i at left >>= finish_read n i) s)
    looped left none short rest e l = absurd l
    looped left (some (err x, t)) short rest e (_, same) = rw (◌>>=◌, e) same
    looped left (some (ok (bytes, end), t)) short rest e (few, there, same) =
        let (_, _, used) = slot_of-used fd s n slot in
        let (u, run, files, kept) = finish_read_lem n i bytes end s m in
        let e' : read_loop left i at left s ≡ some (ok (bytes, end), s) = rw same at e in
        rw (◌>>=◌, e', run)
          (
            n,
            slot,
            (i, here, may, omega (arith, few)),
            omega (arith, few),
            offset_there u end used files ∙ there,
            kept,
          )

  read_slot_lem : ReadResult fd len s (read_slot n len s)
  unfolding read_slot
  read_slot_lem = elim (read_inode_cases (get_or s.g_ofile n no_file).ino s m) [
    | inl e ↦ rw (◌>>=◌, or_else, e) refl
    | inr (i, e) ↦ elim (Bool-cases (perm_can_read i s.g_uid)) [
      | inr denied ↦ rw (◌>>=◌, or_else, e, denied) refl
      | inl allowed ↦ elim (Bool-cases (leb i.size (at i e allowed))) [
        | inl past ↦
            rw (◌>>=◌, or_else, e, allowed, past)
              (n, slot, (i, e, allowed, omega arith), omega arith, omega arith, λ c h. refl)
        | inr before ↦
            rw (◌>>=◌, or_else, e, allowed, before)
              (looped i e allowed _ _ (omega arith) (omega arith) refl
                (read_loop_total _ i (at i e allowed) _ s m (omega arith)))
      ]
    ]
  ]

-- On an open image of full size `fs_read` returns. An error changes nothing. The bytes that it
-- returns are those of a descriptor in use, whose inode the user may read; they are at most `len`,
-- and at most what the file's size leaves behind the offset; the offset moves on by their number;
-- and no data block changes.
pub fs_read-ReadResult :
    (fd : ℤ) (len : ℕ) (s : Fs) → IsMounted s → ReadResult fd len s (fs_read fd len s)
unfolding fs_read
fs_read-ReadResult fd len s m = elim (Option-cases (slot_of fd s)) [
  | inl e ↦ rw (fs_read, e) refl
  | inr (n, e) ↦ rw (fs_read, e) (read_slot_lem fd len n s m e)
]
