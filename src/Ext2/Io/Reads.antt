-- ===== src/Ext2/Io/Reads.antt =====
-- project3/src/file.c: `fs_read` returns, and what it leaves as it was.
use Prim.Native.Nat.{min}
use xjtu_os_project.Prelude.{
  ℕ, zero, suc, ◌+◌, ◌-◌, ◌/◌, ◌%◌, ◌^◌, ◌≤◌, ◌≡◌, ◌⊎◌, inl, inr, refl, List, Option, none, some,
  arith, Bool-cases, ltb, leb, ◌==◌, length, get_or, drop, length-append, length-take, length-drop,
}
use xjtu_os_project.Ext2.Bytes.{slice, words_at}
use xjtu_os_project.Ext2.State.{Inode, Fs, Errno, Result, fs_err, ok, err, ◌>>=◌, or_else}
use xjtu_os_project.Ext2.Dev.{dev_read_block}
use xjtu_os_project.Ext2.Dev.Laws.{IsMounted}
use xjtu_os_project.Ext2.Inode.{ndirect}
use xjtu_os_project.Ext2.Map.{map_bn_for_read, block_or_err}
use xjtu_os_project.Ext2.Map.Blocks.{as_int_ok, as_int_negative}
use xjtu_os_project.Ext2.Io.{read_loop}

dev_read_cases :
    (b : ℕ) (s : Fs)
    → IsMounted s
    → (dev_read_block b s ≡ some (ok (s.disk.content b), s))
      ⊎ (dev_read_block b s ≡ some (err fs_err, s))
unfolding dev_read_block
dev_read_cases b s m = ground (arith, m.opened, m.full)

-- The result is a block number or an error, and changes nothing.
abbrev IsNumber : Option (Result ℕ × Fs) → Fs → Type 0
IsNumber r s = ((e : Errno) × (r ≡ some (err e, s))) ⊎ ((c : ℕ) × (r ≡ some (ok c, s)))

block_or_err_cases : (b : ℕ) (s : Fs) → IsNumber (block_or_err b s) s
block_or_err_cases zero s = inl (fs_err, refl)
block_or_err_cases (suc b) s = elim (Bool-cases (ltb (suc b) (2 ^ 31))) [
  | inl small ↦ inr (suc b, as_int_ok (suc b) s (ground arith))
  | inr large ↦ inl (_, as_int_negative (suc b) s (ground arith))
]

map_read_cases : (i : Inode) (bn : ℕ) (s : Fs) → IsMounted s → IsNumber (map_bn_for_read i bn s) s
unfolding map_bn_for_read
map_read_cases i bn s m = elim (Bool-cases (ltb bn ndirect)) [
  | inl e ↦ rw e (block_or_err_cases (get_or i.direct bn 0) s)
  | inr e ↦ elim (Bool-cases (i.indirect1 == 0)) [
    | inl h ↦ rw (e, h) (inl (fs_err, refl))
    | inr h ↦ elim (Bool-cases (leb 128 (bn - ndirect))) [
      | inl far ↦ rw (e, h, far) (inl (fs_err, refl))
      | inr near ↦ elim (dev_read_cases i.indirect1 s m) [
        | inl r ↦
            rw (e, h, near, r, ◌>>=◌, or_else)
              (block_or_err_cases
                (get_or (words_at 128 (s.disk.content i.indirect1)) (bn - ndirect) 0) s)
        | inr r ↦ rw (e, h, near, r, ◌>>=◌, or_else) (inl (fs_err, refl))
      ]
    ]
  ]
]

-- The loop returns bytes, at most as many as it is asked for, and the position behind them, or
-- FS_ERR; it changes nothing.
abbrev pub LoopResult : ℕ → ℕ → Fs → Option (Result (List ℕ × ℕ) × Fs) → Type 0
LoopResult at left s none = ⊥
LoopResult at left s (some (err e, t)) = (e ≡ fs_err) × (t ≡ s)
LoopResult at left s (some (ok (bytes, end), t)) =
    (length bytes ≤ left) × (end ≡ at + length bytes) × (t ≡ s)

length-slice : (off n : ℕ) (bs : List ℕ) → off + n ≤ length bs → length (slice off n bs) ≡ n
unfolding slice
length-slice off n bs h = omega (arith, length-take n (drop off bs), length-drop off bs)

abbrev chunk : ℕ → ℕ → ℕ
chunk at left = min (512 - at % 512) left

-- A round of the loop whose block `c` is found, by what the rest of the loop does.
module _ (fuel : ℕ) (i : Inode) (at left : ℕ) (s : Fs) (m : IsMounted s) (c : ℕ)
    (found : map_bn_for_read i (at / 512) s ≡ some (ok c, s))
    (there : dev_read_block c s ≡ some (ok (s.disk.content c), s)) where
  read_round :
      (r : Option (Result (List ℕ × ℕ) × Fs))
      → read_loop fuel i (at + chunk at (suc left)) (suc left - chunk at (suc left)) s ≡ r
      → LoopResult (at + chunk at (suc left)) (suc left - chunk at (suc left)) s r
      → LoopResult at (suc left) s (read_loop (suc fuel) i at (suc left) s)
  unfolding read_loop
  read_round none e l = absurd l
  read_round (some (err x, t)) e l = rw (read_loop, found, there, ◌>>=◌, or_else, e) l
  read_round (some (ok (bytes, end), t)) e (short, there_end, same) =
      let taken : List ℕ = slice (at % 512) (chunk at (suc left)) (s.disk.content c) in
      let len : length taken ≡ chunk at (suc left) =
        length-slice (at % 512) (chunk at (suc left)) (s.disk.content c)
          (omega (arith, m.sized c)) in
      rw (read_loop, found, there, ◌>>=◌, or_else, e)
        (
          omega (arith, len, length-append taken bytes),
          omega (arith, len, length-append taken bytes),
          same,
        )

pub read_loop_total :
    (fuel : ℕ) (i : Inode) (at left : ℕ) (s : Fs)
    → IsMounted s
    → left ≤ fuel
    → LoopResult at left s (read_loop fuel i at left s)
unfolding read_loop
read_loop_total fuel i at zero s m h = (omega arith, omega arith, refl)
read_loop_total zero i at (suc left) s m h = absurd (omega arith)
read_loop_total (suc fuel) i at (suc left) s m h = elim (map_read_cases i (at / 512) s m) [
  | inl (x, e) ↦ rw (read_loop, e) (omega arith, omega arith, refl)
  | inr (c, e) ↦ elim (dev_read_cases c s m) [
    | inr r ↦ rw (read_loop, e, r, ◌>>=◌, or_else) (refl, refl)
    | inl r ↦ read_round fuel i at left s m c e r _ refl (
        read_loop_total fuel i (at + chunk at (suc left)) (suc left - chunk at (suc left)) s m
          (omega arith))
  ]
]
