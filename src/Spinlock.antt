-- ===== src/Spinlock.antt =====
-- project1/part3/spinlock.c: two threads that count in a shared variable under a spin lock, a
-- memory access at a time. `__sync_lock_test_and_set` is one atomic step; `shared_value++` is a
-- load and a store. The two threads interleave in any order. `main` reads the sum when both have
-- finished.
pub mod Invariant
mod Tests
use xjtu_os_project.Prelude.{ℕ, ◌+◌, ◌<◌, ◌≤◌, ◌≡◌, ◌≢◌}

-- `spinlock_t` and `shared_value`
pub record Memory : Type 0 where
  pub flag : ℕ
  pub shared_value : ℕ

-- Where a thread stands in its round `i`, with what it has loaded.
pub data Pc : Type 0 where
  head : (i : ℕ) → Pc  -- the test of the `for`
  spinning : (i : ℕ) → Pc  -- the `while` of `spinlock_lock`
  loading : (i : ℕ) → Pc  -- the load of `shared_value++`
  storing : (i v : ℕ) → Pc  -- the store of `shared_value++`
  releasing : (i : ℕ) → Pc  -- `spinlock_unlock`
  finished : Pc

-- One step of `thread_function` with `n` rounds.
pub data Move (n : ℕ) (m : Memory) : Pc → Memory → Pc → Type 0 where
  again : {i : ℕ} → i < n → Move n m (head i) m (spinning i)
  return : {i : ℕ} → n ≤ i → Move n m (head i) m finished
  busy : {i : ℕ} → m.flag ≢ 0 → Move n m (spinning i) (record m { flag = 1 }) (spinning i)
  lock : {i : ℕ} → m.flag ≡ 0 → Move n m (spinning i) (record m { flag = 1 }) (loading i)
  load : {i : ℕ} → Move n m (loading i) m (storing i m.shared_value)
  store : {i v : ℕ} → Move n m (storing i v) (record m { shared_value = v + 1 }) (releasing i)
  unlock : {i : ℕ} → Move n m (releasing i) (record m { flag = 0 }) (head (i + 1))

pub record System : Type 0 where
  pub mem : Memory
  pub thread1 : Pc
  pub thread2 : Pc

-- `spinlock_init`, `shared_value = 0`, and both threads created.
abbrev pub init : System
init = record { mem = record { flag = 0; shared_value = 0 }; thread1 = head 0; thread2 = head 0 }

pub data Step (n : ℕ) (s : System) : System → Type 0 where
  first :
      {m : Memory} {p : Pc}
      → Move n s.mem s.thread1 m p
      → Step n s (record s { mem = m; thread1 = p })
  second :
      {m : Memory} {p : Pc}
      → Move n s.mem s.thread2 m p
      → Step n s (record s { mem = m; thread2 = p })

pub data Reach (n : ℕ) : System → Type 0 where
  start : Reach n init
  later : {s t : System} → Reach n s → Step n s t → Reach n t
