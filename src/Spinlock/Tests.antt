-- ===== src/Spinlock/Tests.antt =====
-- project1/part3/spinlock.c: interleavings of two threads of one round, and the theorems at them.
use xjtu_os_project.Prelude.{◌≡◌, ◌≢◌, refl, arith}
use xjtu_os_project.Spinlock.{
  spinning, loading, finished, again, return, busy, lock, load, store, unlock, System, Reach, start,
  later, first, second,
}
use xjtu_os_project.Spinlock.Invariant.{inside, mutual_exclusion, no_lost_update}

abbrev waiting : System
waiting = record {
  mem = record { flag = 1; shared_value = 0 };
  thread1 = loading 0;
  thread2 = spinning 0;
}

-- The first thread has the lock; the second has tried once in vain.
waiting-Reach : Reach 1 waiting
waiting-Reach =
    later
      (later (later (later start (first (again (omega arith)))) (first (lock refl)))
        (second (again (omega arith))))
      (second (busy (omega arith)))

abbrev done : System
done = record {
  mem = record { flag = 0; shared_value = 2 };
  thread1 = finished;
  thread2 = finished;
}

done-Reach : Reach 1 done
done-Reach =
    later
      (later
        (later
          (later
            (later
              (later (later (later (later waiting-Reach (first load)) (first store)) (first unlock))
                (second (lock refl)))
              (second load))
            (second store))
          (second unlock))
        (first (return (omega arith))))
      (second (return (omega arith)))

mutual_exclusion_example : inside waiting.thread2 ≢ 1
mutual_exclusion_example = mutual_exclusion waiting-Reach refl

no_lost_update_example : (done.mem.shared_value ≡ 2) × (done.mem.flag ≡ 0)
no_lost_update_example = no_lost_update done-Reach refl refl
