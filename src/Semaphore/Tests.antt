-- ===== src/Semaphore/Tests.antt =====
-- project1/part2/step2_semaphore.c: the theorems at a run of one round each, one thread after the other.
use xjtu_os_project.Prelude.{◌+◌, ◌≡◌, ◌≤◌, ◌⊎◌, refl, arith, pos}
use xjtu_os_project.Race.{change}
use xjtu_os_project.Semaphore.{
  finished, again, return, wait, load, store, post, System, Reach, start, later, first, second,
}
use xjtu_os_project.Semaphore.Invariant.{inside, no_lost_change, CanMove, semaphore_safe}

abbrev done : System
done = record { mem = record { value = 1; g = pos 0 }; adder = finished; subber = finished }

done-Reach : Reach 1 done
unfolding change
done-Reach =
    later
      (later
        (later
          (later
            (later
              (later
                (later
                  (later
                    (later
                      (later (later (later start (first (again (omega arith)))) (first (wait refl)))
                        (first load))
                      (second (again (omega arith))))
                    (first store))
                  (first post))
                (second (wait refl)))
              (second load))
            (second store))
          (second post))
        (second (return (omega arith))))
      (first (return (omega arith)))

no_lost_change_example : (done.mem.g ≡ pos 0) × (done.mem.value ≡ 1)
no_lost_change_example = no_lost_change done-Reach refl refl

semaphore_safe_example :
    (inside done.adder + inside done.subber ≤ 1)
    × (((done.adder ≡ finished) × (done.subber ≡ finished)) ⊎ CanMove 1 done)
semaphore_safe_example = semaphore_safe done-Reach
