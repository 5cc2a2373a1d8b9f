-- ===== src/Softint/Tests.antt =====
-- project2/part1/softint.c: the theorems at a run that returns, and at the state of the lost signal.
use xjtu_os_project.Prelude.{◌≡◌, ◌≢◌, refl, List, [], ◌∷◌, ◌++◌, arith, total}
use xjtu_os_project.Softint.{
  testing, asleep, waiting, line1, ended, returned, Line, stop_test, child_killed, parent_killed,
  pause, test_set, print, handle, send2, print2, send1, print1, wait_child1, wait_child2,
  print_last, System, init, first, second, main, Runs, start, later,
}
use xjtu_os_project.Softint.Children.{is_line_of}
use xjtu_os_project.Softint.Order.{Begins}
use xjtu_os_project.Softint.Steps.{softint_prints}
use xjtu_os_project.Softint.Wakeup.{told_first, lost, wakeup_lost}

-- Child 1 sleeps before the signal comes, child 2 sees it at its first test.
abbrev all_done : System
all_done = record {
  world = record (init.world) {
    shared = record {
      bytes = 0;
      out =
          stop_test 2
          ∷ stop_test 12
          ∷ child_killed 1
          ∷ child_killed 2
          ∷ stop_test 10
          ∷ parent_killed
          ∷ [];
    };
    flags1 = record { got = 1; pending = 0 };
    child1 = ended;
    flags2 = record { got = 1; pending = 0 };
    child2 = ended;
    parent_tripped = 1;
    last_parent_sig = 2;
  };
  parent = returned;
}

both_sent : Runs 10 12 init (record {
  world = record (init.world) {
    shared = record { bytes = 0; out = stop_test 2 ∷ stop_test 12 ∷ [] };
    flags1 = record { got = 0; pending = 1 };
    child1 = waiting asleep;
    flags2 = record { got = 0; pending = 1 };
    child2 = waiting testing;
    parent_tripped = 1;
    last_parent_sig = 2;
  };
  parent = line1;
})
both_sent =
    later (later (later (later (told_first 10 12) (first pause)) (main send2)) (main print2))
      (main send1)

all_done-Runs : Runs 10 12 init all_done
all_done-Runs =
    later
      (later
        (later
          (later
            (later
              (later
                (later
                  (later
                    (later (later both_sent (first (handle refl tt)))
                      (first (test_set (omega arith))))
                    (first print))
                  (second (handle refl tt)))
                (second (test_set (omega arith))))
              (second print))
            (main print1))
          (main (wait_child1 tt)))
        (main (wait_child2 tt)))
      (main print_last)

softint_prints_example :
    (body : List Line) × (all_done.world.shared.out ≡ body ++ parent_killed ∷ [])
    × Begins body (stop_test 12 ∷ stop_test 10 ∷ [])
    × (total (is_line_of 1) body ≡ 1)
    × (total (is_line_of 2) body ≡ 1)
    × (all_done.world.child1 ≡ ended)
    × (all_done.world.child2 ≡ ended)
softint_prints_example = softint_prints all_done-Runs refl

wakeup_lost_example :
    Runs 10 12 init (lost 10 12)
    × ((lost 10 12).parent ≢ returned)
    × ((lost 10 12).world.child1 ≢ ended)
wakeup_lost_example = wakeup_lost 10 12 start
