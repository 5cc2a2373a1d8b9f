-- ===== src/Ext2/Io/Fuel.antt =====
-- project3/src/file.c: the loop of `fs_write` returns within as many rounds as it has bytes.
use Prim.Native.Nat.{min}
use mathlib.Core.Path.{subst}
use xjtu_os_project.Prelude.{
  ℕ, zero, suc, ◌+◌, ◌-◌, ◌/◌, ◌%◌, ◌<◌, ◌≤◌, ◌≡◌, refl, sym, List, [], ◌∷◌, Option, none, some,
  arith, length, take, drop, length-drop,
}
use xjtu_os_project.Ext2.Bytes.{splice}
use xjtu_os_project.Ext2.State.{Inode, Fs, Result, fs_err, ok, err, Errno, M, pure, ◌>>=◌, or_else}
use xjtu_os_project.Ext2.Dev.{dev_read_block, dev_write_block}
use xjtu_os_project.Ext2.Map.{map_bn_for_write}
use xjtu_os_project.Ext2.Io.{write_loop}

-- The bytes of the next round: those up to the end of the block, or all that are left.
abbrev pub count : ℕ → List ℕ → ℕ
count at buf = min (512 - at % 512) (length buf)

-- The block of a round: it is found or taken, read, changed and written.
abbrev pub write_block : Inode → ℕ → List ℕ → M Inode
write_block i at buf = map_bn_for_write i (at / 512) >>= λ (i', phys).
    or_else (dev_read_block phys) fs_err >>= λ blk.
    or_else (dev_write_block (splice (at % 512) (take (count at buf) buf) blk) phys) fs_err >>= λ _.
    pure i'

-- The `while` with no bound on its rounds: it returns `r` after finitely many. Each takes a byte or
-- more.
pub data Writes : Inode → ℕ → List ℕ → Fs → Option (Result (Inode × ℕ) × Fs) → Type 0 where
  at_end : {i : Inode} {at : ℕ} {s : Fs} → Writes i at [] s (some (ok (i, at), s))
  no_result :
      {i : Inode} {at c : ℕ} {buf : List ℕ} {s : Fs}
      → write_block i at (c ∷ buf) s ≡ none
      → Writes i at (c ∷ buf) s none
  stops :
      {i : Inode} {at c : ℕ} {buf : List ℕ} {s t : Fs} {e : Errno}
      → write_block i at (c ∷ buf) s ≡ some (err e, t)
      → Writes i at (c ∷ buf) s (some (err e, t))
  goes_on :
      {i i' : Inode} {at c : ℕ} {buf : List ℕ} {s t : Fs} {r : Option (Result (Inode × ℕ) × Fs)}
      → write_block i at (c ∷ buf) s ≡ some (ok i', t)
      → 0 < count at (c ∷ buf)
      → Writes i' (at + count at (c ∷ buf)) (drop (count at (c ∷ buf)) (c ∷ buf)) t r
      → Writes i at (c ∷ buf) s r

-- `m >>= f` where `m` has returned.
abbrev then_run : {A B : Type 0} → (A → M B) → Option (Result A × Fs) → Option (Result B × Fs)
then_run f r = elim r [
  | none ↦ none
  | some (ok a, s') ↦ f a s'
  | some (err e, s') ↦ some (err e, s')
]

-- What follows the three calls of a round is run where they have succeeded.
module _ {A : Type 0} (rd : ℕ → M (List ℕ)) (wr : ℕ → List ℕ → M (Unit {0})) (k : Inode → M A) where
  after_write :
      (i : Inode) (r : Option (Result (Unit {0}) × Fs))
      → then_run (λ _. k i) r ≡ then_run k (then_run (λ _. pure i) r)
  after_write i none = refl
  after_write i (some (ok _, t)) = refl
  after_write i (some (err e, t)) = refl

  after_read :
      (i : Inode) (b : ℕ) (r : Option (Result (List ℕ) × Fs))
      → then_run (λ blk. wr b blk >>= λ _. k i) r
        ≡ then_run k (then_run (λ blk. wr b blk >>= λ _. pure i) r)
  after_read i b none = refl
  after_read i b (some (ok blk, t)) = after_write i (wr b blk t)
  after_read i b (some (err e, t)) = refl

  after_map :
      (r : Option (Result (Inode × ℕ) × Fs))
      → then_run (λ (i, b). rd b >>= λ blk. wr b blk >>= λ _. k i) r
        ≡ then_run k (then_run (λ (i, b). rd b >>= λ blk. wr b blk >>= λ _. pure i) r)
  after_map none = refl
  after_map (some (ok (i, b), t)) = after_read i b (rd b t)
  after_map (some (err e, t)) = refl

module _ (f : ℕ) (i : Inode) (at c : ℕ) (buf : List ℕ) where
  abbrev n : ℕ
  n = count at (c ∷ buf)

  -- The rest of the loop.
  abbrev rest : Inode → M (Inode × ℕ)
  rest i' = write_loop f i' (at + n) (drop n (c ∷ buf))

  first_round :
      (s : Fs) → write_loop (suc f) i at (c ∷ buf) s ≡ then_run rest (write_block i at (c ∷ buf) s)
  unfolding write_loop
  first_round s =
      after_map (λ b. or_else (dev_read_block b) fs_err)
        (λ b blk. or_else (dev_write_block (splice (at % 512) (take n (c ∷ buf)) blk) b) fs_err)
        rest (map_bn_for_write i (at / 512) s)

  Writes-then :
      (s : Fs) (r : Option (Result Inode × Fs))
      → write_block i at (c ∷ buf) s ≡ r
      → ((i' : Inode) (t : Fs) → Writes i' (at + n) (drop n (c ∷ buf)) t (rest i' t))
      → Writes i at (c ∷ buf) s (then_run rest r)
  Writes-then s none e ih = no_result e
  Writes-then s (some (err x, t)) e ih = stops e
  Writes-then s (some (ok i', t)) e ih = goes_on e (omega arith) (ih i' t)

-- Given at least as many rounds as bytes, the loop of `fs_write` returns what the `while` of the source
-- returns, which has no bound on its rounds, after finitely many of them. It copies in each round the
-- bytes up to the end of a block, or all that are left, and always at least one.
pub write_loop-Writes :
    (f : ℕ) (i : Inode) (at : ℕ) (buf : List ℕ) (s : Fs)
    → length buf ≤ f
    → Writes i at buf s (write_loop f i at buf s)
unfolding write_loop
write_loop-Writes f i at [] s h = at_end
write_loop-Writes zero i at (c ∷ buf) s h = absurd (omega arith)
write_loop-Writes (suc f) i at (c ∷ buf) s h =
    subst (Writes i at (c ∷ buf) s) (sym (first_round f i at c buf s)) (
      Writes-then f i at c buf s _ refl λ i' t.
        write_loop-Writes f i' (at + n f i at c buf) (drop (n f i at c buf) (c ∷ buf)) t
          (omega (arith, length-drop (n f i at c buf) (c ∷ buf))))
