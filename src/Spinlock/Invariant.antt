-- ===== src/Spinlock/Invariant.antt =====
-- project1/part3/spinlock.c: mutual exclusion, and no increment is lost.
use xjtu_os_project.Prelude.{
  ℕ, ◌+◌, ◌*◌, ◌<◌, ◌≤◌, ◌≡◌, ◌≢◌, refl, arith, ◌⊎◌, inl, inr, Bool-cases, ◌==◌,
}
use native.Mathlib.Decide.{dec_lt}
use xjtu_os_project.Spinlock.{
  Memory, Pc, head, spinning, loading, storing, releasing, finished, Move, again, return, busy,
  lock, load, store, unlock, System, Step, first, second, Reach, start, later,
}

-- 1 between the return of `spinlock_lock` and the release.
abbrev pub inside : Pc → ℕ
inside (loading i) = 1
inside (storing i v) = 1
inside (releasing i) = 1
inside _ = 0

-- The increments that a thread of `n` rounds has stored.
abbrev pub counted : ℕ → Pc → ℕ
counted n (head i) = i
counted n (spinning i) = i
counted n (loading i) = i
counted n (storing i v) = i
counted n (releasing i) = i + 1
counted n finished = n

-- A round number is below `n`, and what was loaded is still in memory.
abbrev pub IsFresh : ℕ → Memory → Pc → Type 0
IsFresh n m (head i) = i ≤ n
IsFresh n m (spinning i) = i < n
IsFresh n m (loading i) = i < n
IsFresh n m (storing i v) = (i < n) × (m.shared_value ≡ v)
IsFresh n m (releasing i) = i < n
IsFresh n m finished = Unit

-- `p` is the thread that moves, `q` the other one.
pub record Inv (n : ℕ) (m : Memory) (p q : Pc) : Type 0 where
  pub held : inside p + inside q ≡ m.flag
  pub one : m.flag ≤ 1
  pub sum : counted n p + counted n q ≡ m.shared_value
  pub mine : IsFresh n m p
  pub yours : IsFresh n m q

Inv-swap : {n : ℕ} {m : Memory} {p q : Pc} → Inv n m p q → Inv n m q p
Inv-swap v = record {
  held = omega (arith, v.held);
  one = v.one;
  sum = omega (arith, v.sum);
  mine = v.yours;
  yours = v.mine;
}

-- What the other thread knows survives a write by the thread that holds the lock.
IsFresh-outside : (n : ℕ) (m m' : Memory) (q : Pc) → inside q ≡ 0 → IsFresh n m q → IsFresh n m' q
IsFresh-outside n m m' (head i) o f = f
IsFresh-outside n m m' (spinning i) o f = f
IsFresh-outside n m m' (loading i) o f = absurd (omega arith)
IsFresh-outside n m m' (storing i v) o f = absurd (omega arith)
IsFresh-outside n m m' (releasing i) o f = absurd (omega arith)
IsFresh-outside n m m' finished o f = f

IsFresh-flag :
    (n : ℕ) (m : Memory) (f : ℕ) (q : Pc) → IsFresh n m q → IsFresh n (record m { flag = f }) q
IsFresh-flag n m f (head i) h = h
IsFresh-flag n m f (spinning i) h = h
IsFresh-flag n m f (loading i) h = h
IsFresh-flag n m f (storing i v) h = h
IsFresh-flag n m f (releasing i) h = h
IsFresh-flag n m f finished h = h

Move-Inv :
    {n : ℕ} {m m' : Memory} {p p' : Pc} (q : Pc) → Move n m p m' p' → Inv n m p q → Inv n m' p' q
Move-Inv q (again h) v = record {
  held = v.held;
  one = v.one;
  sum = v.sum;
  mine = h;
  yours = v.yours;
}
Move-Inv q (return h) v = record {
  held = v.held;
  one = v.one;
  sum = omega (arith, v.sum, v.mine);
  mine = tt;
  yours = v.yours;
}
Move-Inv {n} {m} q (busy h) v = record {
  held = omega (arith, v.held, v.one);
  one = omega arith;
  sum = v.sum;
  mine = v.mine;
  yours = IsFresh-flag n m 1 q v.yours;
}
Move-Inv {n} {m} q (lock h) v = record {
  held = omega (arith, v.held);
  one = omega arith;
  sum = v.sum;
  mine = v.mine;
  yours = IsFresh-flag n m 1 q v.yours;
}
Move-Inv q load v = record {
  held = v.held;
  one = v.one;
  sum = v.sum;
  mine = (v.mine, refl);
  yours = v.yours;
}
Move-Inv {n} {m} q (store {i} {v = w}) v = record {
  held = v.held;
  one = v.one;
  sum = omega (arith, v.sum, v.mine);
  mine = v.mine.0;
  yours =
      IsFresh-outside n m (record m { shared_value = w + 1 }) q (omega (arith, v.held, v.one))
        v.yours;
}
Move-Inv {n} {m} q unlock v = record {
  held = omega (arith, v.held, v.one);
  one = omega arith;
  sum = v.sum;
  mine = omega (arith, v.mine);
  yours = IsFresh-flag n m 0 q v.yours;
}

Step-Inv :
    {n : ℕ} {s t : System}
    → Step n s t
    → Inv n s.mem s.thread1 s.thread2
    → Inv n t.mem t.thread1 t.thread2
Step-Inv {s} (first mv) v = Move-Inv s.thread2 mv v
Step-Inv {s} (second mv) v = Inv-swap (Move-Inv s.thread1 mv (Inv-swap v))

pub Reach-Inv : {n : ℕ} {s : System} → Reach n s → Inv n s.mem s.thread1 s.thread2
Reach-Inv start = record {
  held = refl;
  one = omega arith;
  sum = refl;
  mine = omega arith;
  yours = omega arith;
}
Reach-Inv (later r st) = Step-Inv st (Reach-Inv r)

-- In no reachable state are both threads between the return of `spinlock_lock` and the release.
pub mutual_exclusion :
    {n : ℕ} {s : System} → Reach n s → inside s.thread1 ≡ 1 → inside s.thread2 ≢ 1
mutual_exclusion r in1 in2 = omega (arith, (Reach-Inv r).held, (Reach-Inv r).one)

-- When both threads of `n` rounds have finished, in whatever order they ran, the shared value is
-- `2 * n`: no increment is lost; and the lock is free.
pub no_lost_update :
    {n : ℕ} {s : System}
    → Reach n s
    → s.thread1 ≡ finished
    → s.thread2 ≡ finished
    → (s.mem.shared_value ≡ 2 * n) × (s.mem.flag ≡ 0)
no_lost_update r e f = ground (arith, (Reach-Inv r).held, (Reach-Inv r).sum)

-- A step by which a thread gets on: all but a failed round of the busy wait.
pub data Progress (n : ℕ) (m : Memory) (p : Pc) : Type 0 where
  goes : (m' : Memory) (p' : Pc) → Move n m p m' p' → p ≢ p' → Progress n m p

-- Two places of a thread told apart.
next_place : (n : ℕ) (m : Memory) (p : Pc) → inside p ≡ 1 → Progress n m p
next_place n m (head i) h = absurd (omega arith)
next_place n m (spinning i) h = absurd (omega arith)
next_place n m (loading i) h = goes m (storing i m.shared_value) load (λ e. cc)
next_place n m (storing i v) h = goes _ (releasing i) store (λ e. cc)
next_place n m (releasing i) h = goes _ (head (i + 1)) unlock (λ e. cc)
next_place n m finished h = absurd (omega arith)

free_place : (n : ℕ) (m : Memory) (p : Pc) → m.flag ≡ 0 → p ≢ finished → Progress n m p
free_place n m (head i) h ne = elim (dec_lt i n) [
  | yes lt ↦ goes m (spinning i) (again lt) (λ e. cc)
  | no ge ↦ goes m finished (return (omega arith)) (λ e. cc)
]
free_place n m (spinning i) h ne = goes _ (loading i) (lock h) (λ e. cc)
free_place n m (loading i) h ne = goes m (storing i m.shared_value) load (λ e. cc)
free_place n m (storing i v) h ne = goes _ (releasing i) store (λ e. cc)
free_place n m (releasing i) h ne = goes _ (head (i + 1)) unlock (λ e. cc)
free_place n m finished h ne = absurd (ne refl)

held_by : (a b f : ℕ) → a + b ≡ f → f ≢ 0 → a ≤ 1 → b ≤ 1 → (a ≡ 1) ⊎ (b ≡ 1)
held_by a b f e ne ha hb = omega arith

inside-le : (p : Pc) → inside p ≤ 1
inside-le (head i) = omega arith
inside-le (spinning i) = omega arith
inside-le (loading i) = omega arith
inside-le (storing i v) = omega arith
inside-le (releasing i) = omega arith
inside-le finished = omega arith

-- No deadlock: in every reachable state in which a thread has not finished, one of the two threads
-- can make a step that is not a failed round of the busy wait.
pub no_deadlock :
    {n : ℕ} {s : System}
    → Reach n s
    → (s.thread1 ≢ finished) ⊎ (s.thread2 ≢ finished)
    → Progress n s.mem s.thread1 ⊎ Progress n s.mem s.thread2
no_deadlock {n} {s} r waits = elim (Bool-cases (s.mem.flag == 0)) [
  | inl free ↦ elim waits [
    | inl ne ↦ inl (free_place n s.mem s.thread1 (ground arith) ne)
    | inr ne ↦ inr (free_place n s.mem s.thread2 (ground arith) ne)
  ]
  | inr taken ↦
      elim (held_by (inside s.thread1) (inside s.thread2) s.mem.flag held (ground arith)
        (inside-le s.thread1) (inside-le s.thread2)) [
          | inl h ↦ inl (next_place n s.mem s.thread1 h)
          | inr h ↦ inr (next_place n s.mem s.thread2 h)
        ]
]
  where
    open (Reach-Inv r) use {held}
