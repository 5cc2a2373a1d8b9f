-- ===== src/Ext2/Io/Descriptors.antt =====
-- project3/src/file.c: file descriptors that are open, and that are not.
use xjtu_os_project.Prelude.{
  ℕ, zero, suc, ◌<◌, ◌≡◌, ◌≢◌, refl, ap, sym, ◌∙◌, List, [], ◌∷◌, none, some, true, false, arith,
  get_or, length, get_or-set_self, get_or-set_ne, ℤ, pos, negsuc,
}
use xjtu_os_project.Ext2.State.{OpenFile, Fs, ebadf, ok, err}
use xjtu_os_project.Ext2.Open.{max_open, no_file, slot_of, update_slot, fs_close, fs_seek}
use xjtu_os_project.Ext2.Io.{fs_read, fs_write}

-- All four functions refuse `fd`, and change nothing.
pub record IsRefused (fd : ℤ) (s : Fs) : Type 0 where
  pub close : fs_close fd s ≡ some (err ebadf, s)
  pub seek : (off : ℤ) → fs_seek fd off s ≡ some (err ebadf, s)
  pub read : (len : ℕ) → fs_read fd len s ≡ some (err ebadf, s)
  pub write : (buf : List ℕ) → fs_write fd buf s ≡ some (err ebadf, s)

none-IsRefused : (fd : ℤ) (s : Fs) → slot_of fd s ≡ none → IsRefused fd s
unfolding fs_close fs_seek fs_read fs_write
none-IsRefused fd s e = record {
  close = rw (fs_close, e) refl;
  seek = λ off. rw (fs_seek, e) refl;
  read = λ len. rw (fs_read, e) refl;
  write = λ buf. rw (fs_write, e) refl;
}

-- A used entry is one of the table.
pub used_inside : (fs : List OpenFile) (n : ℕ) → (get_or fs n no_file).used ≡ true → n < length fs
used_inside [] n h = ground arith
used_inside (f ∷ fs) zero h = omega arith
used_inside (f ∷ fs) (suc n) h = omega (arith, used_inside fs n h)

pub slot_of-used :
    (fd : ℤ) (s : Fs) (n : ℕ)
    → slot_of fd s ≡ some n
    → (fd ≡ pos n) × (n < max_open) × ((get_or s.g_ofile n no_file).used ≡ true)
unfolding slot_of
slot_of-used (negsuc k) s n h = ground arith
slot_of-used (pos k) s n h = ground arith

-- What a change of entry `n` that `slot_of` gave does to the table.
module _ (n : ℕ) (f : OpenFile → OpenFile) (s : Fs)
    (used : (get_or s.g_ofile n no_file).used ≡ true) where
  pub entry_there : get_or (update_slot n f s).g_ofile n no_file ≡ f (get_or s.g_ofile n no_file)
  entry_there = get_or-set_self s.g_ofile n _ no_file (used_inside s.g_ofile n used)

  other_slot : (fd : ℤ) → fd ≢ pos n → slot_of fd (update_slot n f s) ≡ slot_of fd s
  unfolding slot_of
  other_slot (negsuc k) ne = refl
  other_slot (pos k) ne =
      rw
        (get_or-set_ne s.g_ofile n k (f (get_or s.g_ofile n no_file)) no_file
          (λ e. ne (ap pos (sym e))))
        refl

  closed_slot :
      (f (get_or s.g_ofile n no_file)).used ≡ false → slot_of (pos n) (update_slot n f s) ≡ none
  unfolding slot_of
  closed_slot e = ground (arith, entry_there, e)

-- `fs_close` of a descriptor in use succeeds. Afterwards `fs_read`, `fs_write`, `fs_seek` and
-- `fs_close` of that descriptor return FS_EBADF and change nothing, and every other descriptor is
-- in use or not as it was.
pub fs_close_ends :
    (fd : ℤ) (n : ℕ) (s : Fs)
    → slot_of fd s ≡ some n
    → (t : Fs) × (fs_close fd s ≡ some (ok tt, t))
      × IsRefused fd t
      × ((other : ℤ) → other ≢ fd → slot_of other t ≡ slot_of other s)
unfolding fs_close
fs_close_ends fd n s h =
    let (e, lt, used) = slot_of-used fd s n h in
    let drop_it : OpenFile → OpenFile = λ f. record f { used = false } in
    (
      update_slot n drop_it s,
      rw (fs_close, h) refl,
      none-IsRefused fd _ (rw e (closed_slot n drop_it s used refl)),
      λ other ne. other_slot n drop_it s used other (λ k. ne (k ∙ sym e)),
    )
