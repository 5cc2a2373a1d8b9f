-- ===== src/Pipe/Counts.antt =====
-- project2/part2/pipe_communication.c: every byte arrives, with the lock or without.
use xjtu_os_project.Prelude.{
  ℕ, zero, suc, ◌+◌, ◌-◌, ◌*◌, ◌≤◌, ◌≡◌, ◌≢◌, refl, ap, Bool, List, [], ◌∷◌, Option, none, some,
  arith, if◌then◌else◌, ◌==◌, take, length, total, total-append, length-append,
}
use xjtu_os_project.Pipe.{
  Child, locking, writing, sleeping, exited, Pipe, Move, lock, no_lock, write, done, unlock, exit,
  System, c1, c2, Step, first, second, Reach, start, later, received, Stats, count, stats_from,
  stats,
}

-- The bytes that a child of `n` bytes has written.
abbrev pub written : ℕ → Child → ℕ
written n locking = 0
written n (writing left) = n - left
written n sleeping = n
written n exited = n

abbrev pub IsChild : ℕ → Child → Type 0
IsChild n (writing left) = left ≤ n
IsChild n _ = Unit

-- 1 at the byte `c`.
abbrev pub occurs : ℕ → ℕ → ℕ
occurs c b = if b == c then 1 else 0

-- `c` is the byte of the child `p`, `d` that of the other one.
pub record Inv (n c d : ℕ) (bytes : List ℕ) (p q : Child) : Type 0 where
  pub mine : total (occurs c) bytes ≡ written n p
  pub yours : total (occurs d) bytes ≡ written n q
  pub all : length bytes ≡ written n p + written n q
  pub child : IsChild n p
  pub other : IsChild n q

Inv-swap : {n c d : ℕ} {bytes : List ℕ} {p q : Child} → Inv n c d bytes p q → Inv n d c bytes q p
Inv-swap v = record {
  mine = v.yours;
  yours = v.mine;
  all = omega (arith, v.all);
  child = v.other;
  other = v.child;
}

Move-Inv :
    {n capacity : ℕ} {use_lock : Bool} {c d : ℕ} {s s' : Pipe} {p p' : Child} (q : Child)
    → c ≢ d
    → Move n capacity use_lock c s p s' p'
    → Inv n c d s.bytes p q
    → Inv n c d s'.bytes p' q
Move-Inv q ne (lock u l) v = record {
  mine = omega (arith, v.mine);
  yours = v.yours;
  all = omega (arith, v.all);
  child = omega arith;
  other = v.other;
}
Move-Inv q ne (no_lock u) v = record {
  mine = omega (arith, v.mine);
  yours = v.yours;
  all = omega (arith, v.all);
  child = omega arith;
  other = v.other;
}
Move-Inv {c} {d} {s} q ne (write {left} room) v = record {
  mine = ground (arith, total-append (occurs c) s.bytes (c ∷ []), v.mine, v.child);
  yours = ground (arith, total-append (occurs d) s.bytes (c ∷ []), v.yours, v.child);
  all = omega (arith, length-append s.bytes (c ∷ []), v.all, v.child);
  child = omega (arith, v.child);
  other = v.other;
}
Move-Inv q ne (done e) v = record {
  mine = omega (arith, v.mine);
  yours = v.yours;
  all = omega (arith, v.all);
  child = tt;
  other = v.other;
}
Move-Inv q ne (unlock u) v = record {
  mine = v.mine;
  yours = v.yours;
  all = v.all;
  child = tt;
  other = v.other;
}
Move-Inv q ne (exit u) v = record {
  mine = v.mine;
  yours = v.yours;
  all = v.all;
  child = tt;
  other = v.other;
}

Step-Inv :
    {n capacity : ℕ} {use_lock : Bool} {s t : System}
    → Step n capacity use_lock s t
    → Inv n c1 c2 s.pipe.bytes s.child1 s.child2
    → Inv n c1 c2 t.pipe.bytes t.child1 t.child2
Step-Inv {s} (first mv) v = Move-Inv s.child2 (omega arith) mv v
Step-Inv {s} (second mv) v = Inv-swap (Move-Inv s.child1 (omega arith) mv (Inv-swap v))

pub Reach-Inv :
    {n capacity : ℕ} {use_lock : Bool} {s : System}
    → Reach n capacity use_lock s
    → Inv n c1 c2 s.pipe.bytes s.child1 s.child2
Reach-Inv start = record { mine = refl; yours = refl; all = refl; child = tt; other = tt }
Reach-Inv (later r st) = Step-Inv st (Reach-Inv r)

counts_from :
    (last : Option ℕ) (s : Stats) (bytes : List ℕ)
    → ((stats_from last s bytes).count1 ≡ s.count1 + total (occurs c1) bytes)
      × ((stats_from last s bytes).count2 ≡ s.count2 + total (occurs c2) bytes)
unfolding stats_from
counts_from last s [] = omega arith
counts_from last s (c ∷ bytes) = ground (arith, counts_from (some c) (count last c s) bytes)

take_all : (k : ℕ) (bytes : List ℕ) → length bytes ≤ k → take k bytes ≡ bytes
take_all zero [] h = refl
take_all zero (b ∷ bytes) h = absurd (omega arith)
take_all (suc k) [] h = refl
take_all (suc k) (b ∷ bytes) h = ap (◌∷◌ b) (take_all k bytes (omega arith))

pub written-le : (n : ℕ) (p : Child) → written n p ≤ n
written-le n locking = omega arith
written-le n (writing left) = omega arith
written-le n sleeping = omega arith
written-le n exited = omega arith

-- All that has been written is received.
pub received-all :
    {n capacity : ℕ} {use_lock : Bool} {s : System}
    → Reach n capacity use_lock s
    → received n s ≡ s.pipe.bytes
unfolding received
received-all {n} {s} r =
    take_all (2 * n) s.pipe.bytes
      (omega (arith, (Reach-Inv r).all, written-le n s.child1, written-le n s.child2))

-- When both children have ended, in whatever order they wrote and with the lock or without, the parent
-- counts `n` bytes of each child, and has received `2 * n` bytes in all.
pub pipe_counts :
    {n capacity : ℕ} {use_lock : Bool} {s : System}
    → Reach n capacity use_lock s
    → s.child1 ≡ exited
    → s.child2 ≡ exited
    → ((stats (received n s)).count1 ≡ n)
      × ((stats (received n s)).count2 ≡ n)
      × (length (received n s) ≡ 2 * n)
unfolding stats
pipe_counts {n} {s} r e f =
    let v = Reach-Inv r in
    let w1 : written n s.child1 ≡ n = ap (written n) e in
    let w2 : written n s.child2 ≡ n = ap (written n) f in
    let (k1, k2) =
      counts_from none (record { count1 = 0; count2 = 0; switches = 0 }) s.pipe.bytes in
    rw (received-all r)
      (omega (arith, k1, v.mine, w1), omega (arith, k2, v.yours, w2), omega (arith, v.all, w1, w2))
