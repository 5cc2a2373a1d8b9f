-- ===== src/Semaphore/Invariant.antt =====
-- project1/part2/step2_semaphore.c: mutual exclusion, and the sum that is left.
use xjtu_os_project.Prelude.{
  ℕ, ◌+◌, ◌*◌, ◌<◌, ◌≤◌, ◌≡◌, ◌≢◌, ◌⊎◌, inl, inr, refl, ap, arith, ℤ, pos, above_zero, below_zero,
}
use native.Mathlib.Decide.{dec_lt}
use xjtu_os_project.Race.{Worker, adds, subs, change}
use xjtu_os_project.Semaphore.{
  Memory, Pc, head, waiting, loading, storing, posting, finished, Move, again, return, wait, load,
  store, post, System, Step, first, second, Reach, start, later,
}

-- 1 between the return of `P` and the call of `V`.
abbrev pub inside : Pc → ℕ
inside (loading i) = 1
inside (storing i tmp) = 1
inside (posting i) = 1
inside _ = 0

-- What a worker of `n` rounds has stored, in changes.
abbrev pub changes : ℕ → Pc → ℕ
changes n (head i) = i
changes n (waiting i) = i
changes n (loading i) = i
changes n (storing i tmp) = i
changes n (posting i) = i + 1
changes n finished = n

-- A round number is below `n`, and what was loaded is still in memory.
abbrev pub IsCurrent : ℕ → ℤ → Pc → Type 0
IsCurrent n g (head i) = i ≤ n
IsCurrent n g (waiting i) = i < n
IsCurrent n g (loading i) = i < n
IsCurrent n g (storing i tmp) = (i < n) × (tmp ≡ g)
IsCurrent n g (posting i) = i < n
IsCurrent n g finished = Unit

-- `ups` additions and `downs` subtractions of 100 have been stored.
abbrev pub IsSum : ℕ → ℕ → ℤ → Type 0
IsSum ups downs g = above_zero g + 100 * downs ≡ below_zero g + 100 * ups

pub record Inv (n : ℕ) (m : Memory) (p q : Pc) : Type 0 where
  pub held : inside p + inside q + m.value ≡ 1
  pub sum : IsSum (changes n p) (changes n q) m.g
  pub adder : IsCurrent n m.g p
  pub subber : IsCurrent n m.g q

-- What a thread outside knows does not depend on the shared number.
IsCurrent-outside : (n : ℕ) (g g' : ℤ) (q : Pc) → inside q ≡ 0 → IsCurrent n g q → IsCurrent n g' q
IsCurrent-outside n g g' (head i) o c = c
IsCurrent-outside n g g' (waiting i) o c = c
IsCurrent-outside n g g' (loading i) o c = absurd (omega arith)
IsCurrent-outside n g g' (storing i tmp) o c = absurd (omega arith)
IsCurrent-outside n g g' (posting i) o c = absurd (omega arith)
IsCurrent-outside n g g' finished o c = c

IsSum-adds : (u d : ℕ) (g : ℤ) → IsSum u d g → IsSum (u + 1) d (change adds g)
unfolding change
IsSum-adds u d g h = ground arith

IsSum-subs : (u d : ℕ) (g : ℤ) → IsSum u d g → IsSum u (d + 1) (change subs g)
unfolding change
IsSum-subs u d g h = ground arith

adder-Inv :
    {n : ℕ} {m m' : Memory} {p p' : Pc} (q : Pc)
    → Move n adds m p m' p'
    → Inv n m p q
    → Inv n m' p' q
adder-Inv q (again h) v = record { held = v.held; sum = v.sum; adder = h; subber = v.subber }
adder-Inv q (return h) v = record {
  held = v.held;
  sum = omega (arith, v.sum, v.adder);
  adder = tt;
  subber = v.subber;
}
adder-Inv q (wait h) v = record {
  held = omega (arith, v.held);
  sum = v.sum;
  adder = v.adder;
  subber = v.subber;
}
adder-Inv q load v = record {
  held = v.held;
  sum = v.sum;
  adder = (v.adder, refl);
  subber = v.subber;
}
adder-Inv {n} {m} q (store {i} {tmp}) v = record {
  held = v.held;
  sum = IsSum-adds i (changes n q) tmp (rw v.adder.1 v.sum);
  adder = v.adder.0;
  subber = IsCurrent-outside n m.g (change adds tmp) q (omega (arith, v.held)) v.subber;
}
adder-Inv q post v = record {
  held = omega (arith, v.held);
  sum = v.sum;
  adder = omega (arith, v.adder);
  subber = v.subber;
}

subber-Inv :
    {n : ℕ} {m m' : Memory} {q q' : Pc} (p : Pc)
    → Move n subs m q m' q'
    → Inv n m p q
    → Inv n m' p q'
subber-Inv p (again h) v = record { held = v.held; sum = v.sum; adder = v.adder; subber = h }
subber-Inv p (return h) v = record {
  held = v.held;
  sum = omega (arith, v.sum, v.subber);
  adder = v.adder;
  subber = tt;
}
subber-Inv p (wait h) v = record {
  held = omega (arith, v.held);
  sum = v.sum;
  adder = v.adder;
  subber = v.subber;
}
subber-Inv p load v = record {
  held = v.held;
  sum = v.sum;
  adder = v.adder;
  subber = (v.subber, refl);
}
subber-Inv {n} {m} p (store {i} {tmp}) v = record {
  held = v.held;
  sum = IsSum-subs (changes n p) i tmp (rw v.subber.1 v.sum);
  adder = IsCurrent-outside n m.g (change subs tmp) p (omega (arith, v.held)) v.adder;
  subber = v.subber.0;
}
subber-Inv p post v = record {
  held = omega (arith, v.held);
  sum = v.sum;
  adder = v.adder;
  subber = omega (arith, v.subber);
}

Step-Inv :
    {n : ℕ} {s t : System}
    → Step n s t
    → Inv n s.mem s.adder s.subber
    → Inv n t.mem t.adder t.subber
Step-Inv {s} (first mv) v = adder-Inv s.subber mv v
Step-Inv {s} (second mv) v = subber-Inv s.adder mv v

pub Reach-Inv : {n : ℕ} {s : System} → Reach n s → Inv n s.mem s.adder s.subber
Reach-Inv start = record { held = refl; sum = refl; adder = omega arith; subber = omega arith }
Reach-Inv (later r st) = Step-Inv st (Reach-Inv r)

-- When both threads have finished, in whatever order they ran, the shared number is 0 and the
-- semaphore is 1 again.
pub no_lost_change :
    {n : ℕ} {s : System}
    → Reach n s
    → s.adder ≡ finished
    → s.subber ≡ finished
    → (s.mem.g ≡ pos 0) × (s.mem.value ≡ 1)
no_lost_change r e f = ground (arith, (Reach-Inv r).held, (Reach-Inv r).sum)

-- One of the two threads can make a step, unless both have finished.
pub data CanMove (n : ℕ) (s : System) : Type 0 where
  moves : (t : System) → Step n s t → CanMove n s

pub record CanGo (n : ℕ) (w : Worker) (m : Memory) (p : Pc) : Type 0 where
  pub mem : Memory
  pub place : Pc
  pub move : Move n w m p mem place

-- A worker can go on if it is inside, or if the semaphore is 1 and it has not finished.
go_on :
    (n : ℕ) (w : Worker) (m : Memory) (p : Pc)
    → (inside p ≡ 1) ⊎ (m.value ≡ 1)
    → p ≢ finished
    → CanGo n w m p
go_on n w m (head i) h ne = elim (dec_lt i n) [
  | yes lt ↦ record { mem = m; place = waiting i; move = again lt }
  | no ge ↦ record { mem = m; place = finished; move = return (omega arith) }
]
go_on n w m (waiting i) (inl h) ne = absurd (omega arith)
go_on n w m (waiting i) (inr h) ne = record { mem = _; place = loading i; move = wait {v = 0} h }
go_on n w m (loading i) h ne = record { mem = m; place = storing i m.g; move = load }
go_on n w m (storing i tmp) h ne = record { mem = _; place = posting i; move = store }
go_on n w m (posting i) h ne = record { mem = _; place = head (i + 1); move = post }
go_on n w m finished h ne = absurd (ne refl)

moves_adder : {n : ℕ} (s : System) → CanGo n adds s.mem s.adder → CanMove n s
moves_adder s c = moves _ (first c.move)

moves_subber : {n : ℕ} (s : System) → CanGo n subs s.mem s.subber → CanMove n s
moves_subber s c = moves _ (second c.move)

finished-or : (p : Pc) → (p ≡ finished) ⊎ (p ≢ finished)
finished-or (head i) = inr (λ e. cc)
finished-or (waiting i) = inr (λ e. cc)
finished-or (loading i) = inr (λ e. cc)
finished-or (storing i tmp) = inr (λ e. cc)
finished-or (posting i) = inr (λ e. cc)
finished-or finished = inl refl

inside_unfinished : (p : Pc) → inside p ≡ 1 → p ≢ finished
inside_unfinished p h e = omega (arith, ap inside e, h)

one_of_three : (a b v : ℕ) → a + b + v ≡ 1 → (v ≡ 1) ⊎ ((a ≡ 1) ⊎ (b ≡ 1))
one_of_three a b v h = omega arith

-- In every reachable state at most one thread is between the return of `P` and the call of `V`; and
-- both threads have finished, or one of the two can make a step.
pub semaphore_safe :
    {n : ℕ} {s : System}
    → Reach n s
    → (inside s.adder + inside s.subber ≤ 1)
      × (((s.adder ≡ finished) × (s.subber ≡ finished)) ⊎ CanMove n s)
semaphore_safe {n} {s} r = (
  omega (arith, held),
  elim (one_of_three (inside s.adder) (inside s.subber) s.mem.value held) [
    | inl free ↦ elim (finished-or s.adder) [
      | inr ne ↦ inr (moves_adder s (go_on n adds s.mem s.adder (inr free) ne))
      | inl e ↦ elim (finished-or s.subber) [
        | inr ne ↦ inr (moves_subber s (go_on n subs s.mem s.subber (inr free) ne))
        | inl f ↦ inl (e, f)
      ]
    ]
    | inr (inl in1) ↦
        inr (moves_adder s (go_on n adds s.mem s.adder (inl in1) (inside_unfinished s.adder in1)))
    | inr (inr in2) ↦
        inr
          (moves_subber s (go_on n subs s.mem s.subber (inl in2) (inside_unfinished s.subber in2)))
  ],
)
  where
    open (Reach-Inv r) use {held}
