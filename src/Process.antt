-- ===== src/Process.antt =====
-- project1: processes and threads. A program is the tree of the calls that it makes, and a system is a
-- first task with one child or one thread at most, which is what these programs have. Of the host the
-- model takes that `fork` copies the variables of the process, that `wait` and `pthread_join` return when
-- the child or the thread has ended, or at once when there is none, that `exec` puts another program in
-- the place of the whole process, and that the end of a process is the end of its threads. Lines come out
-- in the order in which they are printed, as on a terminal. What a task does between two calls that
-- others can see is done with the second of them. `sleep` has no effect of its own.
pub mod Part1
pub mod Part2
pub mod Ends
pub mod Forks
pub mod Threads
mod Tests
use xjtu_os_project.Prelude.{
  ◌≡◌, ℕ, zero, suc, Bool, true, false, List, [], ◌∷◌, ◌++◌, Option, none, some, ℤ, pos, negsuc,
  if◌then◌else◌,
}

-- What is printed: by the programs of part1, and from `main_line` on by those of part2.
pub data Line : Type 0 where
  fork_failed : Line  -- "Fork Failed"
  perror_fork perror_execl perror_execv perror_create : Line
  child_pid parent_pid : (pid : ℤ) → Line
  child_pid1 parent_pid1 : (pid1 : ℕ) → Line
  child_g parent_g : (pid : ℕ) (g : ℤ) → Line
  child_before_return child_before_exit : (pid : ℕ) (g : ℤ) → Line
  parent_after_fork parent_before_exit : (pid : ℕ) (g : ℤ) → Line
  child_process1 child_process parent_process : (pid : ℕ) → Line
  system_call_running : (pid : ℕ) → Line
  main_line main_done : (pid tid : ℕ) → Line
  before_exec calling_system : (pid tid : ℕ) → Line
  system_returned : (pid tid : ℕ) (rc : ℤ) → Line
  after_join : Line
  helper_hello : (pid ppid argc : ℕ) → Line
  helper_argv : (i : ℕ) (arg : List ℕ) → Line

-- The code of a task, from a point on. `g` is the one variable that matters after `fork`.
pub data Code : Type 0 where
  fork : (ℤ → Code) → Code
  pthread_create : (start_routine : Code) → (ℤ → Code) → Code
  getpid getppid gettid : (ℕ → Code) → Code
  set_g : (ℤ → ℤ) → (ℤ → Code) → Code  -- an assignment to `g`, and its new value
  printf : Line → Code → Code
  wait : Code → Code  -- and `pthread_join`
  system : (command : List ℕ) → (ℤ → Code) → Code
  exec : (program : Code) → Code → Code  -- the second is the code after a call that fails
  exit : (status : ℕ) → Code  -- and `return` in `main`
  return_null : Code  -- in the start routine of a thread
  ended : Code

-- With these, a `do` block lists the calls in their order.
infixl 5 ◌>>=◌ ◌>>◌
abbrev pub ◌>>=◌ {ℓ} : {A : Type ℓ} → ((A → Code) → Code) → (A → Code) → Code
call >>= k = call k

abbrev pub ◌>>◌ : (Code → Code) → Code → Code
call >> k = call k

-- The numbers that the host gives out. The child's number is one more than `child`, and an error
-- number one more than `errno`, since neither is 0.
pub record Host : Type 0 where
  pub pid : ℕ
  pub ppid : ℕ
  pub child : ℕ
  pub tid : ℕ
  pub errno : ℕ
  pub rc : ℤ

pub record Task : Type 0 where
  pub pid : ℕ
  pub ppid : ℕ
  pub tid : ℕ
  pub g : ℤ
  pub code : Code

pub data Second : Type 0 where
  absent : Second
  child thread : Task → Second

-- What can be seen of a process, by its number.
pub data Event : Type 0 where
  printed : (pid : ℕ) → Line → Event
  ran : (pid : ℕ) (command : List ℕ) → Event  -- `system` has returned
  exited : (pid : ℕ) (status : ℕ) → Event

pub record System : Type 0 where
  pub first : Task
  pub second : Second
  pub trace : List Event

-- What the next call of a task asks of the system.
pub data Effect : Type 0 where
  goes_on : Task → Event → Effect
  forks : Task → (ℤ → Code) → Effect
  creates : Task → Code → (ℤ → Code) → Effect
  waits : Task → Effect
  becomes : Task → Effect  -- `exec` has put another program in its place
  exits : Task → ℕ → Effect
  returns : Task → Effect
  stays : Effect

-- The next call, where `execs` tells whether `exec` succeeds.
unfoldable pub effect : Host → (execs : Bool) → Task → Code → Effect
effect h e t (fork k) = forks t k
effect h e t (pthread_create r k) = creates t r k
effect h e t (getpid k) = effect h e t (k t.pid)
effect h e t (getppid k) = effect h e t (k t.ppid)
effect h e t (gettid k) = effect h e t (k t.tid)
effect h e t (set_g f k) = effect h e (record t { g = f t.g }) (k (f t.g))
effect h e t (printf l k) = goes_on (record t { code = k }) (printed t.pid l)
effect h e t (wait k) = waits (record t { code = k })
effect h e t (system c k) = goes_on (record t { code = k h.rc }) (ran t.pid c)
effect h true t (exec p k) = becomes (record t { code = p })
effect h false t (exec p k) = effect h false t k
effect h e t (exit n) = exits (record t { code = ended }) n
effect h e t return_null = returns (record t { code = ended })
effect h e t ended = stays

abbrev pub is_ended : Code → Bool
is_ended ended = true
is_ended _ = false

abbrev pub is_gone : Second → Bool
is_gone absent = true
is_gone (child t) = is_ended t.code
is_gone (thread t) = is_ended t.code

-- A process has ended, and its thread with it.
abbrev pub without_thread : Second → Second
without_thread (thread t) = absent
without_thread c = c

-- `fork` in the first task, where `made` tells whether it succeeds.
abbrev pub forked : Host → (made : Bool) → Task → (ℤ → Code) → System → System
forked h true t k s = record s {
  first = record t { code = k (pos (suc h.child)) };
  second =
      child (record t { pid = suc h.child; ppid = t.pid; tid = suc h.child; code = k (pos 0) });
}
forked h false t k s = record s { first = record t { code = k (negsuc 0) } }

-- `pthread_create` in the first task.
abbrev pub created : Host → (made : Bool) → Task → Code → (ℤ → Code) → System → System
created h true t r k s = record s {
  first = record t { code = k (pos 0) };
  second = thread (record t { tid = h.tid; code = r });
}
created h false t r k s = record s { first = record t { code = k (pos (suc h.errno)) } }

-- A step of the first task, if it can go on.
unfoldable pub perform : Host → (made : Bool) → Effect → System → Option System
perform h m (goes_on t e) s = some (record s { first = t; trace = s.trace ++ e ∷ [] })
perform h m (forks t k) s = if is_gone s.second then some (forked h m t k s) else none
perform h m (creates t r k) s = if is_gone s.second then some (created h m t r k s) else none
perform h m (waits t) s = if is_gone s.second then some (record s { first = t }) else none
perform h m (becomes t) s = some (record s { first = t; second = without_thread s.second })
perform h m (exits t n) s = some (record s {
  first = t;
  second = without_thread s.second;
  trace = s.trace ++ exited t.pid n ∷ [];
})
perform h m (returns t) s = some (record s { first = t })
perform h m stays s = none

-- A step of the child. It has no child or thread of its own.
unfoldable pub perform_child : Effect → System → Option System
perform_child (goes_on t e) s = some (record s { second = child t; trace = s.trace ++ e ∷ [] })
perform_child (waits t) s = some (record s { second = child t })
perform_child (becomes t) s = some (record s { second = child t })
perform_child (exits t n) s =
    some (record s { second = child t; trace = s.trace ++ exited t.pid n ∷ [] })
perform_child (returns t) s = some (record s { second = child t })
perform_child _ s = none

-- A step of the thread, which ends or replaces the process that it is in.
unfoldable pub perform_thread : Effect → System → Option System
perform_thread (goes_on t e) s = some (record s { second = thread t; trace = s.trace ++ e ∷ [] })
perform_thread (waits t) s = some (record s { second = thread t })
perform_thread (becomes t) s = some (record s { first = record t { tid = t.pid }; second = absent })
perform_thread (exits t n) s = some (record s {
  first = record (s.first) { code = ended };
  second = absent;
  trace = s.trace ++ exited t.pid n ∷ [];
})
perform_thread (returns t) s = some (record s { second = thread t })
perform_thread _ s = none

-- `made` tells whether `fork` or `pthread_create` succeeds, and `execs` whether `exec` does.
unfoldable pub step_first : Host → (made execs : Bool) → System → Option System
unfolding perform effect
step_first h m e s = perform h m (effect h e s.first s.first.code) s

abbrev pub step_of : Host → (execs : Bool) → Second → System → Option System
step_of h e absent s = none
step_of h e (child t) s = perform_child (effect h e t t.code) s
step_of h e (thread t) s = perform_thread (effect h e t t.code) s

unfoldable pub step_second : Host → (execs : Bool) → System → Option System
unfolding perform_child perform_thread effect
step_second h e s = step_of h e s.second s

pub data Step (h : Host) (made execs : Bool) (s : System) : System → Type 0 where
  by_first : {t : System} → step_first h made execs s ≡ some t → Step h made execs s t
  by_second : {t : System} → step_second h execs s ≡ some t → Step h made execs s t

pub data Runs (h : Host) (made execs : Bool) : System → System → Type 0 where
  start : {s : System} → Runs h made execs s s
  step : {s t u : System} → Step h made execs s t → Runs h made execs t u → Runs h made execs s u

-- Nothing can go on.
abbrev pub IsOver : Host → (made execs : Bool) → System → Type 0
IsOver h m e s = (step_first h m e s ≡ none) × (step_second h e s ≡ none)

-- A program at its start.
abbrev pub at_main : Host → Code → System
at_main h main = record {
  first = record { pid = h.pid; ppid = h.ppid; tid = h.pid; g = pos 100; code = main };
  second = absent;
  trace = [];
}
