-- ===== src/Race.antt =====
-- project1/part2/step1_race.c: one thread adds 100 to a shared number and one subtracts it, with no
-- lock, an access to memory a step. `sched_yield` changes nothing that the model has, for the threads
-- interleave in any order. `n` is the number of rounds, 100000 in the program, where the numbers stay
-- far inside a `long long`.
pub mod Bounds
pub mod Lost
mod Tests
use xjtu_os_project.Prelude.{ℕ, zero, ◌+◌, ◌<◌, ◌≤◌, ℤ, pos, difference, above_zero, below_zero}

-- `add_worker` and `sub_worker`
pub data Worker : Type 0 where
  adds subs : Worker

-- `tmp += 100` and `tmp -= 100`
unfoldable pub change : Worker → ℤ → ℤ
change adds g = difference (above_zero g + 100) (below_zero g)
change subs g = difference (above_zero g) (below_zero g + 100)

-- Where a worker stands in its round `i`, with the number it has loaded.
pub data Pc : Type 0 where
  head : (i : ℕ) → Pc  -- the test of the `for`
  loading : (i : ℕ) → Pc  -- `tmp = g`
  storing : (i : ℕ) (tmp : ℤ) → Pc  -- `g = tmp`, the number changed
  finished : Pc

-- One step of a worker of `n` rounds, from the shared number `g`.
pub data Move (n : ℕ) (w : Worker) (g : ℤ) : Pc → ℤ → Pc → Type 0 where
  again : {i : ℕ} → i < n → Move n w g (head i) g (loading i)
  return : {i : ℕ} → n ≤ i → Move n w g (head i) g finished
  load : {i : ℕ} → Move n w g (loading i) g (storing i g)
  store : {i : ℕ} {tmp : ℤ} → Move n w g (storing i tmp) (change w tmp) (head (i + 1))

pub record System : Type 0 where
  pub g : ℤ
  pub adder : Pc
  pub subber : Pc

abbrev pub init : System
init = record { g = pos 0; adder = head 0; subber = head 0 }

pub data Step (n : ℕ) (s : System) : System → Type 0 where
  first : {g : ℤ} {p : Pc} → Move n adds s.g s.adder g p → Step n s (record s { g = g; adder = p })
  second :
      {g : ℤ} {p : Pc} → Move n subs s.g s.subber g p → Step n s (record s { g = g; subber = p })

pub data Reach (n : ℕ) : System → Type 0 where
  start : Reach n init
  later : {s t : System} → Reach n s → Step n s t → Reach n t
