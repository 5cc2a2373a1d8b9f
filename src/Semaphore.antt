-- ===== src/Semaphore.antt =====
-- project1/part2/step2_semaphore.c: the two threads of project1/part2/step1_race.c, with a semaphore
-- around their access to the shared number. `sem_wait` is a step that can be made while the semaphore
-- is above 0.
pub mod Invariant
mod Tests
use xjtu_os_project.Prelude.{ℕ, suc, ◌+◌, ◌<◌, ◌≤◌, ◌≡◌, ℤ, pos}
use xjtu_os_project.Race.{Worker, adds, subs, change}

-- `s` and `g`
pub record Memory : Type 0 where
  pub value : ℕ
  pub g : ℤ

-- Where a worker stands in its round `i`.
pub data Pc : Type 0 where
  head : (i : ℕ) → Pc  -- the test of the `for`
  waiting : (i : ℕ) → Pc  -- `P(&s)`
  loading : (i : ℕ) → Pc  -- `tmp = g`
  storing : (i : ℕ) (tmp : ℤ) → Pc  -- `g = tmp`, the number changed
  posting : (i : ℕ) → Pc  -- `V(&s)`
  finished : Pc

-- One step of a worker of `n` rounds.
pub data Move (n : ℕ) (w : Worker) (m : Memory) : Pc → Memory → Pc → Type 0 where
  again : {i : ℕ} → i < n → Move n w m (head i) m (waiting i)
  return : {i : ℕ} → n ≤ i → Move n w m (head i) m finished
  wait : {i v : ℕ} → m.value ≡ suc v → Move n w m (waiting i) (record m { value = v }) (loading i)
  load : {i : ℕ} → Move n w m (loading i) m (storing i m.g)
  store : {i : ℕ} {tmp : ℤ} → Move n w m (storing i tmp) (record m { g = change w tmp }) (posting i)
  post : {i : ℕ} → Move n w m (posting i) (record m { value = m.value + 1 }) (head (i + 1))

pub record System : Type 0 where
  pub mem : Memory
  pub adder : Pc
  pub subber : Pc

-- `sem_init(&s, 0, 1)`, and both threads created.
abbrev pub init : System
init = record { mem = record { value = 1; g = pos 0 }; adder = head 0; subber = head 0 }

pub data Step (n : ℕ) (s : System) : System → Type 0 where
  first :
      {m : Memory} {p : Pc}
      → Move n adds s.mem s.adder m p
      → Step n s (record s { mem = m; adder = p })
  second :
      {m : Memory} {p : Pc}
      → Move n subs s.mem s.subber m p
      → Step n s (record s { mem = m; subber = p })

pub data Reach (n : ℕ) : System → Type 0 where
  start : Reach n init
  later : {s t : System} → Reach n s → Step n s t → Reach n t
