-- ===== src/Pipe.antt =====
-- project2/part2/pipe_communication.c: two children write into a pipe, a byte a step, in any order; the
-- parent reads when both have ended, and counts. `fork` and `write` succeed. Of the host the model takes
-- that `write` of a byte waits while the pipe holds `capacity` bytes, that `lockf(F_LOCK)` waits while the
-- other child has the lock, and that `read` hands the bytes over in order. `n` is WRITE_COUNT.
pub mod Counts
pub mod Contents
pub mod Progress
mod Tests
use xjtu_os_project.Prelude.{
  ℕ, zero, suc, ◌+◌, ◌*◌, ◌<◌, ◌≡◌, Bool, true, false, List, [], ◌∷◌, ◌++◌, Option, none, some,
  if◌then◌else◌, ◌==◌, take, length,
}

-- Where a child stands.
pub data Child : Type 0 where
  locking : Child  -- `lockf(fd[1], F_LOCK, 0)`, with a lock
  writing : (left : ℕ) → Child  -- the loop, with `left` bytes to go
  sleeping : Child  -- `sleep(5)` and the unlocking
  exited : Child

-- The bytes in the pipe, and whether a child has the lock.
pub record Pipe : Type 0 where
  pub bytes : List ℕ
  pub locked : Bool

-- A step of the child that writes the byte `c`.
pub data Move (n capacity : ℕ) (use_lock : Bool) (c : ℕ) (s : Pipe)
    : Child → Pipe → Child → Type 0 where
  lock :
      use_lock ≡ true
      → s.locked ≡ false
      → Move n capacity use_lock c s locking (record s { locked = true }) (writing n)
  no_lock : use_lock ≡ false → Move n capacity use_lock c s locking s (writing n)
  write :
      {left : ℕ}
      → length s.bytes < capacity
      → Move n capacity use_lock c s
          (writing (suc left))
          (record s { bytes = s.bytes ++ c ∷ [] })
          (writing left)
  done : {left : ℕ} → left ≡ 0 → Move n capacity use_lock c s (writing left) s sleeping
  unlock :
      use_lock ≡ true → Move n capacity use_lock c s sleeping (record s { locked = false }) exited
  exit : use_lock ≡ false → Move n capacity use_lock c s sleeping s exited

pub record System : Type 0 where
  pub pipe : Pipe
  pub child1 : Child
  pub child2 : Child

abbrev pub init : System
init = record { pipe = record { bytes = []; locked = false }; child1 = locking; child2 = locking }

abbrev pub c1 : ℕ
c1 = b'1'

abbrev pub c2 : ℕ
c2 = b'2'

pub data Step (n capacity : ℕ) (use_lock : Bool) (s : System) : System → Type 0 where
  first :
      {b : Pipe} {p : Child}
      → Move n capacity use_lock c1 s.pipe s.child1 b p
      → Step n capacity use_lock s (record s { pipe = b; child1 = p })
  second :
      {b : Pipe} {p : Child}
      → Move n capacity use_lock c2 s.pipe s.child2 b p
      → Step n capacity use_lock s (record s { pipe = b; child2 = p })

pub data Reach (n capacity : ℕ) (use_lock : Bool) : System → Type 0 where
  start : Reach n capacity use_lock init
  later :
      {s t : System}
      → Reach n capacity use_lock s
      → Step n capacity use_lock s t
      → Reach n capacity use_lock t

-- What the parent reads: at most TOTAL_READ bytes.
unfoldable pub received : ℕ → System → List ℕ
received n s = take (2 * n) s.pipe.bytes

pub record Stats : Type 0 where
  pub count1 : ℕ
  pub count2 : ℕ
  pub switches : ℕ

abbrev pub is_switch : Option ℕ → ℕ → Bool
is_switch none c = false
is_switch (some b) c = if c == b then false else true

-- The body of the counting loop, at the byte `c` behind `last`.
abbrev pub count : Option ℕ → ℕ → Stats → Stats
count last c s = record {
  count1 = if c == c1 then s.count1 + 1 else s.count1;
  count2 = if c == c1 then s.count2 else if c == c2 then s.count2 + 1 else s.count2;
  switches = if is_switch last c then s.switches + 1 else s.switches;
}

unfoldable pub stats_from : Option ℕ → Stats → List ℕ → Stats
stats_from last s [] = s
stats_from last s (c ∷ bytes) = stats_from (some c) (count last c s) bytes

-- What the parent prints.
unfoldable pub stats : List ℕ → Stats
unfolding stats_from
stats bytes = stats_from none (record { count1 = 0; count2 = 0; switches = 0 }) bytes
