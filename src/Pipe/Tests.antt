-- ===== src/Pipe/Tests.antt =====
-- project2/part2/pipe_communication.c: the theorems at a run with the lock, of one byte a child.
use xjtu_os_project.Prelude.{◌*◌, ◌≡◌, ◌⊎◌, refl, arith, true, false, [], ◌∷◌, length}
use xjtu_os_project.Pipe.{
  locking, exited, lock, write, done, unlock, System, Reach, start, later, first, second, received,
  stats_from, stats,
}
use xjtu_os_project.Pipe.Counts.{pipe_counts}
use xjtu_os_project.Pipe.Contents.{pipe_ordered}
use xjtu_os_project.Pipe.Progress.{CanMove, pipe_ends}

abbrev one_ended : System
one_ended = record {
  pipe = record { bytes = b'1' ∷ []; locked = false };
  child1 = exited;
  child2 = locking;
}

abbrev ended : System
ended = record {
  pipe = record { bytes = b'1' ∷ b'2' ∷ []; locked = false };
  child1 = exited;
  child2 = exited;
}

one_ended-Reach : Reach 1 2 true one_ended
one_ended-Reach =
    later
      (later (later (later start (first (lock refl refl))) (first (write (omega arith))))
        (first (done refl)))
      (first (unlock refl))

ended-Reach : Reach 1 2 true ended
ended-Reach =
    later
      (later
        (later (later one_ended-Reach (second (lock refl refl))) (second (write (omega arith))))
        (second (done refl)))
      (second (unlock refl))

stats_mixed : (stats (b'1' ∷ b'2' ∷ b'1' ∷ [])).switches ≡ 2
unfolding stats stats_from
stats_mixed = refl

pipe_counts_example :
    ((stats (received 1 ended)).count1 ≡ 1)
    × ((stats (received 1 ended)).count2 ≡ 1)
    × (length (received 1 ended) ≡ 2 * 1)
pipe_counts_example = pipe_counts ended-Reach refl refl

pipe_ordered_example : (stats (received 1 ended)).switches ≡ 1
pipe_ordered_example = pipe_ordered refl (omega arith) ended-Reach refl refl

pipe_ends_example :
    ((one_ended.child1 ≡ exited) × (one_ended.child2 ≡ exited)) ⊎ CanMove 1 2 true one_ended
pipe_ends_example = pipe_ends (omega arith) one_ended-Reach
