-- ===== src/Softint/Wakeup.antt =====
-- project2/part1/softint.c: `wait_flag` may sleep for ever. The signal of `kill` comes between its test of
-- the flag and its call of `pause`, which then waits for a further signal, and none is sent.
use mathlib.Core.Path.{subst}
use xjtu_os_project.Prelude.{ℕ, ◌≡◌, ◌≢◌, refl, [], ◌∷◌, arith}
use xjtu_os_project.Softint.{
  testing, pausing, asleep, Child, starting, ready, reported, waiting, printing, ended, killed,
  Parent, reading, await_trigger, first_line, kill2, line2, kill1, line1, wait1, wait2, last_line,
  returned, stop_test, Shared, Flags, ChildMove, set_handler, report, close, test_clear, pause,
  test_set, print, handle, die, sigint, World, IsGone, woken, ParentMove, read, end_of_file,
  both_read, trigger, parent_clear, parent_pause, parent_set, print_first, send2, print2, send1,
  print1, wait_child1, wait_child2, print_last, System, init, Step, first, second, main, Runs,
  start, later,
}

-- The child has found the flag clear, and has not come back to the test.
abbrev pub IsSleeping : Child → Type 0
IsSleeping (waiting pausing) = Unit
IsSleeping (waiting asleep) = Unit
IsSleeping _ = ⊥

-- The parent has sent both signals, and child 1 has not ended.
abbrev pub IsLate : Parent → Type 0
IsLate line1 = Unit
IsLate wait1 = Unit
IsLate _ = ⊥

-- Child 1 sleeps, and no signal is pending or will be sent.
record IsLost (w : World) (p : Parent) : Type 0 where
  sleeps : IsSleeping w.child1
  none_pending : w.flags1.pending ≡ 0
  late : IsLate p

move-IsSleeping :
    {i : ℕ} {h h' : Shared} {f f' : Flags} {c c' : Child}
    → ChildMove i h f c h' f' c'
    → IsSleeping c
    → f.pending ≡ 0
    → IsSleeping c' × (f'.pending ≡ 0)
move-IsSleeping set_handler s z = elim s [ ]
move-IsSleeping report s z = elim s [ ]
move-IsSleeping close s z = elim s [ ]
move-IsSleeping (test_clear t) s z = elim s [ ]
move-IsSleeping pause s z = (tt, z)
move-IsSleeping (test_set t) s z = elim s [ ]
move-IsSleeping print s z = elim s [ ]
move-IsSleeping (handle e g) s z = absurd (omega (arith, e, z))
move-IsSleeping (die e) s z = elim s [ ]

IsLate-woken : (p : Parent) → IsLate p → IsLate (woken p)
IsLate-woken line1 l = tt
IsLate-woken wait1 l = tt
IsLate-woken (reading k) l = elim l [ ]
IsLate-woken (await_trigger w) l = elim l [ ]
IsLate-woken first_line l = elim l [ ]
IsLate-woken kill2 l = elim l [ ]
IsLate-woken line2 l = elim l [ ]
IsLate-woken kill1 l = elim l [ ]
IsLate-woken wait2 l = elim l [ ]
IsLate-woken last_line l = elim l [ ]
IsLate-woken returned l = elim l [ ]

sleeps_on : {A : Type 0} (c : Child) → IsSleeping c → IsGone c → A
sleeps_on starting s g = elim s [ ]
sleeps_on ready s g = elim s [ ]
sleeps_on reported s g = elim s [ ]
sleeps_on (waiting w) s g = elim g [ ]
sleeps_on printing s g = elim s [ ]
sleeps_on ended s g = elim s [ ]
sleeps_on killed s g = elim s [ ]

parent-IsLost :
    {sig1 sig2 : ℕ} {w w' : World} {p p' : Parent}
    → ParentMove sig1 sig2 w p w' p'
    → IsLost w p
    → IsLost w' p'
parent-IsLost (read h l e) v = elim v.late [ ]
parent-IsLost (end_of_file l z x y) v = elim v.late [ ]
parent-IsLost (both_read l) v = elim v.late [ ]
parent-IsLost {p} (trigger t ne) v = record {
  sleeps = v.sleeps;
  none_pending = v.none_pending;
  late = IsLate-woken p v.late;
}
parent-IsLost (parent_clear z) v = elim v.late [ ]
parent-IsLost parent_pause v = elim v.late [ ]
parent-IsLost (parent_set ne) v = elim v.late [ ]
parent-IsLost print_first v = elim v.late [ ]
parent-IsLost send2 v = elim v.late [ ]
parent-IsLost print2 v = elim v.late [ ]
parent-IsLost send1 v = elim v.late [ ]
parent-IsLost print1 v = record { sleeps = v.sleeps; none_pending = v.none_pending; late = tt }
parent-IsLost {w} (wait_child1 g) v = sleeps_on w.child1 v.sleeps g
parent-IsLost (wait_child2 g) v = elim v.late [ ]
parent-IsLost print_last v = elim v.late [ ]

Step-IsLost :
    {sig1 sig2 : ℕ} {s t : System}
    → Step sig1 sig2 s t
    → IsLost s.world s.parent
    → IsLost t.world t.parent
Step-IsLost (first m) v =
    let (a, b) = move-IsSleeping m v.sleeps v.none_pending in
    record { sleeps = a; none_pending = b; late = v.late }
Step-IsLost (second m) v = record {
  sleeps = v.sleeps;
  none_pending = v.none_pending;
  late = v.late;
}
Step-IsLost (main m) v = parent-IsLost m v

Runs-IsLost :
    {sig1 sig2 : ℕ} {s t : System}
    → Runs sig1 sig2 s t
    → IsLost s.world s.parent
    → IsLost t.world t.parent
Runs-IsLost start v = v
Runs-IsLost (later r st) v = Step-IsLost st (Runs-IsLost r v)

-- Child 1 has handled its signal between its test and `pause`.
abbrev pub lost : ℕ → ℕ → System
lost sig1 sig2 = record {
  world = record {
    shared = record { bytes = 0; out = stop_test 2 ∷ stop_test sig2 ∷ stop_test sig1 ∷ [] };
    flags1 = record { got = 1; pending = 0 };
    child1 = waiting asleep;
    flags2 = record { got = 0; pending = 1 };
    child2 = waiting testing;
    parent_tripped = 1;
    last_parent_sig = 2;
  };
  parent = wait1;
}

reported_both :
    (sig1 sig2 : ℕ)
    → Runs sig1 sig2 init (record {
      world = record (init.world) {
        shared = record { bytes = 2; out = [] };
        child1 = waiting pausing;
        child2 = waiting testing;
      };
      parent = reading 0;
    })
reported_both sig1 sig2 =
    later
      (later
        (later
          (later (later (later (later start (first set_handler)) (first report)) (first close))
            (first (test_clear refl)))
          (second set_handler))
        (second report))
      (second close)

pub told_first :
    (sig1 sig2 : ℕ)
    → Runs sig1 sig2 init (record {
      world = record (init.world) {
        shared = record { bytes = 0; out = stop_test 2 ∷ [] };
        child1 = waiting pausing;
        child2 = waiting testing;
        parent_tripped = 1;
        last_parent_sig = 2;
      };
      parent = kill2;
    })
told_first sig1 sig2 =
    later
      (later
        (later
          (later
            (later (reported_both sig1 sig2)
              (main (read {n = 2} {b = 0} (omega arith) (omega arith) refl)))
            (main (both_read (omega arith))))
          (main (trigger sigint (λ e. cc))))
        (main (parent_set (omega arith))))
      (main print_first)

lost_reached : (sig1 sig2 : ℕ) → Runs sig1 sig2 init (lost sig1 sig2)
lost_reached sig1 sig2 =
    later
      (later
        (later
          (later (later (later (told_first sig1 sig2) (main send2)) (main print2)) (main send1))
          (first (handle refl tt)))
        (first pause))
      (main print1)

-- A state can be reached in which child 1 has handled the signal that the parent has sent to it, and
-- from which the parent never returns and child 1 never ends, whatever is done and whatever further
-- signals come to the parent.
pub wakeup_lost :
    (sig1 sig2 : ℕ) {t : System}
    → Runs sig1 sig2 (lost sig1 sig2) t
    → Runs sig1 sig2 init (lost sig1 sig2) × (t.parent ≢ returned) × (t.world.child1 ≢ ended)
wakeup_lost sig1 sig2 {t} r =
    let v = Runs-IsLost r (record { sleeps = tt; none_pending = refl; late = tt }) in
    (lost_reached sig1 sig2, not_returned t.parent v.late, not_ended t.world.child1 v.sleeps)
  where
    not_returned : (p : Parent) → IsLate p → p ≢ returned
    not_returned p l e = elim (subst IsLate e l) [ ]

    not_ended : (c : Child) → IsSleeping c → c ≢ ended
    not_ended c l e = elim (subst IsSleeping e l) [ ]
