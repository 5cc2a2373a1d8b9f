-- ===== src/Race/Bounds.antt =====
-- project1/part2/step1_race.c: how far off the shared number can be.
use xjtu_os_project.Prelude.{ℕ, suc, ◌+◌, ◌*◌, ◌≤◌, arith, ℤ, above_zero, below_zero}
use xjtu_os_project.Race.{
  adds, subs, change, Pc, head, loading, storing, finished, Move, again, return, load, store,
  System, Step, first, second, Reach, start, later,
}

-- The rounds that a worker of `n` rounds has done.
abbrev pub rounds : ℕ → Pc → ℕ
rounds n (head i) = i
rounds n (loading i) = i
rounds n (storing i tmp) = i
rounds n finished = n

-- No number is farther from zero than the rounds done so far allow.
abbrev pub IsWithin : ℕ → ℕ → ℤ → Type 0
IsWithin ups downs z = (above_zero z ≤ 100 * ups) × (below_zero z ≤ 100 * downs)

abbrev pub Holds : ℕ → ℕ → ℕ → Pc → Type 0
Holds n ups downs (head i) = i ≤ n
Holds n ups downs (loading i) = suc i ≤ n
Holds n ups downs (storing i tmp) = (suc i ≤ n) × IsWithin ups downs tmp
Holds n ups downs finished = Unit

pub record Inv (n : ℕ) (g : ℤ) (p q : Pc) : Type 0 where
  pub shared : IsWithin (rounds n p) (rounds n q) g
  pub adder : Holds n (rounds n p) (rounds n q) p
  pub subber : Holds n (rounds n p) (rounds n q) q

Holds-more : (n u d u' d' : ℕ) (p : Pc) → u ≤ u' → d ≤ d' → Holds n u d p → Holds n u' d' p
Holds-more n u d u' d' (head i) hu hd h = h
Holds-more n u d u' d' (loading i) hu hd h = h
Holds-more n u d u' d' (storing i tmp) hu hd h = omega (arith, h)
Holds-more n u d u' d' finished hu hd h = tt

change-IsWithin_adds : (u d : ℕ) (z : ℤ) → IsWithin u d z → IsWithin (u + 1) d (change adds z)
unfolding change
change-IsWithin_adds u d z h = ground (arith, h)

change-IsWithin_subs : (u d : ℕ) (z : ℤ) → IsWithin u d z → IsWithin u (d + 1) (change subs z)
unfolding change
change-IsWithin_subs u d z h = ground (arith, h)

adder-Inv :
    {n : ℕ} {g g' : ℤ} {p p' : Pc} (q : Pc) → Move n adds g p g' p' → Inv n g p q → Inv n g' p' q
adder-Inv q (again h) v = record { shared = v.shared; adder = h; subber = v.subber }
adder-Inv {n} q (return {i} h) v = record {
  shared = omega (arith, v.shared, v.adder);
  adder = tt;
  subber = Holds-more n i (rounds n q) n (rounds n q) q v.adder (omega arith) v.subber;
}
adder-Inv q load v = record { shared = v.shared; adder = (v.adder, v.shared); subber = v.subber }
adder-Inv {n} q (store {i} {tmp}) v = record {
  shared = change-IsWithin_adds i (rounds n q) tmp v.adder.1;
  adder = omega (arith, v.adder);
  subber = Holds-more n i (rounds n q) (i + 1) (rounds n q) q (omega arith) (omega arith) v.subber;
}

subber-Inv :
    {n : ℕ} {g g' : ℤ} {q q' : Pc} (p : Pc) → Move n subs g q g' q' → Inv n g p q → Inv n g' p q'
subber-Inv p (again h) v = record { shared = v.shared; adder = v.adder; subber = h }
subber-Inv {n} p (return {i} h) v = record {
  shared = omega (arith, v.shared, v.subber);
  adder = Holds-more n (rounds n p) i (rounds n p) n p (omega arith) v.subber v.adder;
  subber = tt;
}
subber-Inv p load v = record { shared = v.shared; adder = v.adder; subber = (v.subber, v.shared) }
subber-Inv {n} p (store {i} {tmp}) v = record {
  shared = change-IsWithin_subs (rounds n p) i tmp v.subber.1;
  adder = Holds-more n (rounds n p) i (rounds n p) (i + 1) p (omega arith) (omega arith) v.adder;
  subber = omega (arith, v.subber);
}

Step-Inv :
    {n : ℕ} {s t : System} → Step n s t → Inv n s.g s.adder s.subber → Inv n t.g t.adder t.subber
Step-Inv {s} (first mv) v = adder-Inv s.subber mv v
Step-Inv {s} (second mv) v = subber-Inv s.adder mv v

Reach-Inv : {n : ℕ} {s : System} → Reach n s → Inv n s.g s.adder s.subber
Reach-Inv start = record { shared = omega arith; adder = omega arith; subber = omega arith }
Reach-Inv (later r st) = Step-Inv st (Reach-Inv r)

-- In whatever order the two threads run, the shared number is never farther from zero than 100 times
-- the rounds that the adding thread, on the side above, or the subtracting one, on the side below, has
-- done so far.
pub race_bounds :
    {n : ℕ} {s : System} → Reach n s → IsWithin (rounds n s.adder) (rounds n s.subber) s.g
race_bounds r = (Reach-Inv r).shared
