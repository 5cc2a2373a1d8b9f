-- ===== src/Race/Lost.antt =====
-- project1/part2/step1_race.c: an order of steps in which every subtraction is lost.
use xjtu_os_project.Prelude.{
  ℕ, zero, suc, ◌+◌, ◌*◌, ◌<◌, ◌≤◌, ◌≡◌, refl, ap, ◌∙◌, arith, ℤ, pos, difference,
}
use xjtu_os_project.Race.{
  adds, subs, change, Pc, head, storing, finished, again, return, load, store, System, first,
  second, Reach, start, later,
}

abbrev pub at : ℤ → Pc → Pc → System
at g p q = record { g = g; adder = p; subber = q }

-- A whole round of each thread, with the other one standing still.
sub_round :
    (n k : ℕ) (g : ℤ) (p : Pc)
    → k < n
    → Reach n (at g p (head k))
    → Reach n (at (change subs g) p (head (k + 1)))
sub_round n k g p h r = later (later (later r (second (again h))) (second load)) (second store)

add_round :
    (n k : ℕ) (g : ℤ) (q : Pc)
    → k < n
    → Reach n (at g (head k) q)
    → Reach n (at (change adds g) (head (k + 1)) q)
add_round n k g q h r = later (later (later r (first (again h))) (first load)) (first store)

change_subs : (k : ℕ) → change subs (difference 0 (100 * k)) ≡ difference 0 (100 * (k + 1))
unfolding change
change_subs k = ground arith

change_adds : (k : ℕ) → change adds (pos (100 * k)) ≡ pos (100 * (k + 1))
unfolding change
change_adds k = ground arith

moved :
    {n : ℕ} {g g' : ℤ} {p p' q q' : Pc}
    → g ≡ g'
    → p ≡ p'
    → q ≡ q'
    → Reach n (at g p q)
    → Reach n (at g' p' q')
moved eg ep eq r = rw (← eg, ← ep, ← eq) r

sub_rounds :
    (n k : ℕ) (p : Pc)
    → k ≤ n
    → Reach n (at (pos 0) p (head 0))
    → Reach n (at (difference 0 (100 * k)) p (head k))
sub_rounds n zero p h r = r
sub_rounds n (suc k) p h r =
    moved (change_subs k ∙ ap (λ j. difference 0 (100 * j)) (omega arith)) refl
      (ap head (omega arith))
      (sub_round n k (difference 0 (100 * k)) p (omega arith) (sub_rounds n k p (omega arith) r))

-- From its second round on the adding thread has the memory for itself.
add_rounds :
    (n k : ℕ) (q : Pc)
    → suc k ≤ n
    → Reach n (at (pos 100) (head 1) q)
    → Reach n (at (pos (100 * suc k)) (head (suc k)) q)
add_rounds n zero q h r = r
add_rounds n (suc k) q h r =
    moved (change_adds (suc k) ∙ ap (λ j. pos (100 * j)) (omega arith)) (ap head (omega arith)) refl
      (add_round n (suc k) (pos (100 * suc k)) q (omega arith) (add_rounds n k q (omega arith) r))

-- The adding thread has loaded 0 and is held up while the other one does all its rounds; then it
-- stores 100.
overwritten : (n : ℕ) → Reach (suc n) (at (pos 100) (head 1) finished)
unfolding change
overwritten n =
    later
      (later
        (sub_rounds (suc n) (suc n) (storing 0 (pos 0)) (omega arith)
          (later (later start (first (again (omega arith)))) (first load)))
        (second (return (omega arith))))
      (first store)

-- For every number of rounds but 0 there is an order of steps in which both threads finish and the
-- shared number is 100 for each round: all the subtractions are lost.
pub race_loses : (n : ℕ) → Reach (suc n) (at (pos (100 * suc n)) finished finished)
race_loses n =
    later (add_rounds (suc n) n finished (omega arith) (overwritten n))
      (first (return (omega arith)))
