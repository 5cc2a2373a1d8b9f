-- ===== src/Softint.antt =====
-- project2/part1/softint.c: a parent is interrupted, and then sends a signal to each of its two children.
-- The model begins when both `fork`s have succeeded and ends with the last line of the parent. A signal is
-- pending from `kill` on, until the child handles it, which it can at any point, or dies of it, if it has
-- set no handler yet. SIGINT, SIGQUIT and SIGALRM may come to the parent at any time and any number of
-- times; what they do in a child, before it ignores them, is to set variables that no child reads. Lines
-- come out in the order in which they are printed, as on a terminal.
pub mod Children
pub mod Order
pub mod Places
pub mod ParentSteps
pub mod Steps
pub mod Wakeup
mod Tests
use xjtu_os_project.Prelude.{ℕ, ◌+◌, ◌<◌, ◌≤◌, ◌≡◌, ◌≢◌, List, [], ◌∷◌, ◌++◌}

-- Where a process stands in `wait_flag`.
pub data Wait : Type 0 where
  testing : Wait  -- `!*flag`
  pausing : Wait  -- the flag was 0, and `pause` has not begun
  asleep : Wait  -- in `pause`

pub data Child : Type 0 where
  starting : Child  -- no handler is set
  ready : Child  -- the handler is set
  reported : Child  -- the byte is written
  waiting : Wait → Child
  printing : Child
  ended : Child
  killed : Child  -- by the signal

pub data Parent : Type 0 where
  reading : (got : ℕ) → Parent
  await_trigger : Wait → Parent
  first_line kill2 line2 kill1 line1 wait1 wait2 last_line returned : Parent

pub data Line : Type 0 where
  stop_test : (sig : ℕ) → Line  -- "%d stop test"
  child_killed : (child : ℕ) → Line  -- "Child process … is killed by parent !!"
  parent_killed : Line  -- "Parent process is killed!!"

-- The bytes in the pipe, and the lines that have been printed.
pub record Shared : Type 0 where
  pub bytes : ℕ
  pub out : List Line

-- `child1_got` or `child2_got`, and 1 while the signal is pending.
pub record Flags : Type 0 where
  pub got : ℕ
  pub pending : ℕ

-- A signal that is handled in `pause` ends it.
abbrev pub wake : Wait → Wait
wake testing = testing
wake pausing = pausing
wake asleep = testing

abbrev pub handled : Child → Child
handled (waiting w) = waiting (wake w)
handled c = c

-- The handler of the child is set, and the child runs.
abbrev pub IsHandling : Child → Type 0
IsHandling starting = ⊥
IsHandling ended = ⊥
IsHandling killed = ⊥
IsHandling _ = Unit

-- A step of the child `i`.
pub data ChildMove (i : ℕ) (h : Shared) (f : Flags) : Child → Shared → Flags → Child → Type 0 where
  set_handler : ChildMove i h f starting h f ready
  report : ChildMove i h f ready (record h { bytes = h.bytes + 1 }) f reported
  close : ChildMove i h f reported h f (waiting testing)
  test_clear : f.got ≡ 0 → ChildMove i h f (waiting testing) h f (waiting pausing)
  pause : ChildMove i h f (waiting pausing) h f (waiting asleep)
  test_set : f.got ≢ 0 → ChildMove i h f (waiting testing) h f printing
  print : ChildMove i h f printing (record h { out = h.out ++ child_killed i ∷ [] }) f ended
  handle :
      {c : Child}
      → f.pending ≡ 1
      → IsHandling c
      → ChildMove i h f c h (record { got = 1; pending = 0 }) (handled c)
  die : f.pending ≡ 1 → ChildMove i h f starting h (record f { pending = 0 }) killed

-- The signals that the parent has a handler for.
pub data Trigger : Type 0 where
  sigint sigquit sigalrm : Trigger

abbrev pub signo : Trigger → ℕ
signo sigint = 2
signo sigquit = 3
signo sigalrm = 14

pub record World : Type 0 where
  pub shared : Shared
  pub flags1 : Flags
  pub child1 : Child
  pub flags2 : Flags
  pub child2 : Child
  pub parent_tripped : ℕ
  pub last_parent_sig : ℕ

-- The child has closed its end of the pipe.
abbrev pub IsClosed : Child → Type 0
IsClosed starting = ⊥
IsClosed ready = ⊥
IsClosed reported = ⊥
IsClosed _ = Unit

-- `waitpid` returns.
abbrev pub IsGone : Child → Type 0
IsGone ended = Unit
IsGone killed = Unit
IsGone _ = ⊥

abbrev pub woken : Parent → Parent
woken (await_trigger w) = await_trigger (wake w)
woken p = p

abbrev pub said : Line → World → World
said l w = record w { shared = record (w.shared) { out = w.shared.out ++ l ∷ [] } }

-- A step of the parent, or a signal to it. `sig1` and `sig2` are CHILD1_SIG and CHILD2_SIG.
pub data ParentMove (sig1 sig2 : ℕ) (w : World) : Parent → World → Parent → Type 0 where
  read :
      {k n b : ℕ}
      → 0 < n
      → k + n ≤ 2
      → w.shared.bytes ≡ b + n
      → ParentMove sig1 sig2 w
          (reading k)
          (record w { shared = record (w.shared) { bytes = b } })
          (reading (k + n))
  end_of_file :
      {k : ℕ}
      → k < 2
      → w.shared.bytes ≡ 0
      → IsClosed w.child1
      → IsClosed w.child2
      → ParentMove sig1 sig2 w (reading k) w (await_trigger testing)
  both_read : {k : ℕ} → 2 ≤ k → ParentMove sig1 sig2 w (reading k) w (await_trigger testing)
  trigger :
      {p : Parent} (t : Trigger)
      → p ≢ returned
      → ParentMove sig1 sig2 w p
          (record w { parent_tripped = 1; last_parent_sig = signo t })
          (woken p)
  parent_clear :
      w.parent_tripped ≡ 0
      → ParentMove sig1 sig2 w (await_trigger testing) w (await_trigger pausing)
  parent_pause : ParentMove sig1 sig2 w (await_trigger pausing) w (await_trigger asleep)
  parent_set : w.parent_tripped ≢ 0 → ParentMove sig1 sig2 w (await_trigger testing) w first_line
  print_first : ParentMove sig1 sig2 w first_line (said (stop_test w.last_parent_sig) w) kill2
  send2 :
      ParentMove sig1 sig2 w kill2 (record w { flags2 = record (w.flags2) { pending = 1 } }) line2
  print2 : ParentMove sig1 sig2 w line2 (said (stop_test sig2) w) kill1
  send1 :
      ParentMove sig1 sig2 w kill1 (record w { flags1 = record (w.flags1) { pending = 1 } }) line1
  print1 : ParentMove sig1 sig2 w line1 (said (stop_test sig1) w) wait1
  wait_child1 : IsGone w.child1 → ParentMove sig1 sig2 w wait1 w wait2
  wait_child2 : IsGone w.child2 → ParentMove sig1 sig2 w wait2 w last_line
  print_last : ParentMove sig1 sig2 w last_line (said parent_killed w) returned

pub record System : Type 0 where
  pub world : World
  pub parent : Parent

abbrev pub init : System
init = record {
  world = record {
    shared = record { bytes = 0; out = [] };
    flags1 = record { got = 0; pending = 0 };
    child1 = starting;
    flags2 = record { got = 0; pending = 0 };
    child2 = starting;
    parent_tripped = 0;
    last_parent_sig = 0;
  };
  parent = reading 0;
}

pub data Step (sig1 sig2 : ℕ) (s : System) : System → Type 0 where
  first :
      {h : Shared} {f : Flags} {c : Child}
      → ChildMove 1 s.world.shared s.world.flags1 s.world.child1 h f c
      → Step sig1 sig2 s
          (record s { world = record (s.world) { shared = h; flags1 = f; child1 = c } })
  second :
      {h : Shared} {f : Flags} {c : Child}
      → ChildMove 2 s.world.shared s.world.flags2 s.world.child2 h f c
      → Step sig1 sig2 s
          (record s { world = record (s.world) { shared = h; flags2 = f; child2 = c } })
  main :
      {w : World} {p : Parent}
      → ParentMove sig1 sig2 s.world s.parent w p
      → Step sig1 sig2 s (record { world = w; parent = p })

-- The states that can be reached from `s`.
pub data Runs (sig1 sig2 : ℕ) (s : System) : System → Type 0 where
  start : Runs sig1 sig2 s s
  later : {t u : System} → Runs sig1 sig2 s t → Step sig1 sig2 t u → Runs sig1 sig2 s u
